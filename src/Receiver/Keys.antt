-- ===== src/Receiver/Keys.antt =====
-- The keys that BlueZ saves: custom_components/presence_bridge/receiver/keys.py. What the file of a peer
-- holds is a parameter.
use presence_bridge.Prelude.{
  ℕ, zero, suc, ◌=ℕ◌, Bool, false, ◌&&◌, [], ◌∷◌, ◌++◌, Option, none, some, String, upper, codes,
  matches, is_hex, is_upper_hex, Bytes, ℤ, pos, eqb_ℤ, Result, ok, err, ◌>>=◌, ◌>>◌, guard,
  if◌then◌else◌,
}
use presence_bridge.Runtime.{Runtime}
use presence_bridge.Coordinator.Removal.{from_hex, fingerprint_of}
use presence_bridge.Windows.Keys.Registry.{hex_upper}

pub data KeyError : Type 0 where
  invalid_address symbolic_link invalid_file not_authenticated not_available : KeyError

-- two digits, and then five times a colon and two digits
is_mac : ℕ → Bytes → Bool
is_mac zero (a ∷ b ∷ []) = is_upper_hex a && is_upper_hex b
is_mac (suc n) (a ∷ b ∷ c ∷ s) = is_upper_hex a && is_upper_hex b && c =ℕ b':' && is_mac n s
is_mac _ _ = false

-- address
unfoldable pub address : String → Result KeyError String
unfolding is_mac
address value = if is_mac 5 (codes (upper value)) then ok (upper value) else err invalid_address

pub record Bond : Type 0 where
  pub peer : String
  pub irk : String

-- Bond.fingerprint
unfoldable pub fingerprint : Runtime → Bond → Option String
fingerprint rt bond = fingerprint_of rt bond.irk

-- The file of a peer: reached through a link, not a regular file of a fair size, not to be opened or
-- parsed, or with its two keys and the two numbers of the bond.
pub data BondFile : Type 0 where
  linked oversized unreadable : BondFile
  parsed : (key long_term_key : String) (authenticated size : ℤ) → BondFile

reversed : Bytes → Bytes
reversed [] = []
reversed (b ∷ bs) = reversed bs ++ (b ∷ [])

abbrev is_hex_key : String → Bool
is_hex_key key = matches is_hex 32 32 (codes key)

-- bytes.fromhex(key)[::-1].hex().upper()
unfoldable pub big_endian : String → Option String
unfolding reversed
big_endian key = elim (from_hex (codes key)) [
  | none ↦ none
  | some bytes ↦ some (hex_upper (reversed bytes))
]

abbrev bond_of : String → Option String → Result KeyError Bond
bond_of peer none = err not_available
bond_of peer (some irk) = ok (record { peer = peer; irk = irk })

unfoldable pub read_file : String → BondFile → Result KeyError Bond
read_file peer linked = err symbolic_link
read_file peer oversized = err invalid_file
read_file peer unreadable = err not_available
read_file peer (parsed key long_term_key authenticated size) = do
  guard (is_hex_key key && is_hex_key long_term_key) not_available
  guard (eqb_ℤ authenticated (pos 1) && eqb_ℤ size (pos 16)) not_authenticated
  bond_of peer (big_endian key)

-- BlueZKeys.read
unfoldable pub read : String → (String → BondFile) → Result KeyError Bond
read peer files = do normalized ← address peer; read_file normalized (files normalized)
