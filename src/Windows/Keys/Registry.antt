-- ===== src/Windows/Keys/Registry.antt =====
-- The walk through the Windows registry: `read_windows_private_ble_irks`. The tree is what `winreg`
-- gives; a part that cannot be read raises OSError.
pub mod Strict
use Prim.Native.String.{char_at}
use presence_bridge.Prelude.{
  ℕ, ◌+◌, ◌/◌, ◌%◌, ltb, ◌=ℕ◌, Bool, true, false, ◌||◌, ◌&&◌, not, List, [], ◌∷◌, ◌++◌, Option,
  none, some, String, ◌==◌, codes, split, has_prefix, Bytes, Result, ok, err, length, if◌then◌else◌,
  ◌≡◌, refl, arith, All, All-append, ap,
}
use presence_bridge.Runtime.{Runtime}
use presence_bridge.Windows.Keys.{KeyRecord}

pub data OsError : Type 0 where
  os_error : OsError

-- A value of a registry key: its name, and its bytes where it is binary.
pub record Entry : Type 0 where
  pub value_name : String
  pub data_bytes : Option Bytes

-- A registry key: its values, whether their enumeration ended by itself, and its children.
mutual
  pub data Key : Type 0 where
    key : List Entry → Bool → Children → Key

  -- `last b` is the end of the children, with whether it is error 259; a child may refuse to open.
  pub data Children : Type 0 where
    last : Bool → Children
    denied : String → Children → Children
    child : String → Key → Children → Children

-- needle in text
abbrev contains : Bytes → Bytes → Bool
contains needle [] = has_prefix needle []
contains needle (c ∷ s) = has_prefix needle (c ∷ s) || contains needle s

abbrev pub concat : String → String → String
concat String.[] t = t
concat (String.◌∷◌ c s) t = String.◌∷◌ c (concat s t)

-- value.hex().upper()
unfoldable pub hex_upper : Bytes → String
hex_upper [] = String.[]
hex_upper (b ∷ bs) =
    String.◌∷◌ (char_at "0123456789ABCDEF" (b / 16))
      (String.◌∷◌ (char_at "0123456789ABCDEF" (b % 16)) (hex_upper bs))

abbrev last_part : List String → String
last_part [] = ""
last_part (s ∷ []) = s
last_part (s ∷ t ∷ parts) = last_part (t ∷ parts)

-- relative_path.rsplit("\\", 1)[-1]
unfoldable pub leaf : String → String
leaf path = last_part (split 92 path)

abbrev registry_path : String
registry_path = "SYSTEM\\CurrentControlSet\\Services\\BTHPORT\\Parameters\\Keys"

-- What a part gives where it fails: an error if the caller is strict, the records so far otherwise.
unfoldable pub failed : Bool → List KeyRecord → Result OsError (List KeyRecord)
failed strict found = if strict then err os_error else ok found

-- Records found earlier come first.
unfoldable pub after :
    List KeyRecord → Result OsError (List KeyRecord) → Result OsError (List KeyRecord)
after found (ok rest) = ok (found ++ rest)
after found (err e) = err e

-- the children after the values, or the error of the values
unfoldable pub visit_values :
    Bool → List KeyRecord → Bool → Result OsError (List KeyRecord) → Result OsError (List KeyRecord)
visit_values strict found true children = after found children
visit_values true found false children = err os_error
visit_values false found false children = after found children

-- a child, then those after it
unfoldable pub visit_next :
    Result OsError (List KeyRecord)
    → Result OsError (List KeyRecord)
    → Result OsError (List KeyRecord)
visit_next (ok found) rest = after found rest
visit_next (err e) rest = err e

module _ (rt : Runtime) where
  -- A name that may belong to the key of a phone, and not to that of the adapter.
  unfoldable pub is_peer_name : String → Bool
  is_peer_name name =
      let normalized = rt.casefold name in
      not (normalized == "centralirk") && contains (codes "irk") (codes normalized)

  unfoldable pub records_of : String → List Entry → List KeyRecord
  records_of path [] = []
  records_of path (entry ∷ entries) =
      let rest = records_of path entries in
      elim entry.data_bytes [
        | none ↦ rest
        | some bytes ↦
            if is_peer_name entry.value_name && length bytes =ℕ 16
            then (record {
              registry_path = path;
              registry_leaf = leaf path;
              value_name = entry.value_name;
              irk = hex_upper bytes;
            })
              ∷ rest
            else rest
      ]

  unfoldable mutual
    pub visit : Bool → String → ℕ → Key → Result OsError (List KeyRecord)
    visit strict path depth (key entries ended children) =
        let below = visit_children strict path depth children in
        if ltb 4 depth then ok [] else visit_values strict (records_of path entries) ended below

    pub visit_children : Bool → String → ℕ → Children → Result OsError (List KeyRecord)
    visit_children strict path depth (last clean) = if clean then ok [] else failed strict []
    visit_children strict path depth (denied name rest) =
        let later = visit_children strict path depth rest in if strict then err os_error else later
    visit_children strict path depth (child name opened rest) =
        visit_next (visit strict (concat path (concat "\\" name)) (depth + 1) opened)
          (visit_children strict path depth rest)

  -- `read_windows_private_ble_irks`; `none` is a root that cannot be opened
  unfoldable pub read_irks : Bool → Option Key → Result OsError (List KeyRecord)
  read_irks strict none = failed strict []
  read_irks strict (some root) = visit strict registry_path 0 root
