-- ===== src/Windows/Keys/Registry/Strict.antt =====
-- A strict read of the registry gives what the lenient one gives, or an error.
use presence_bridge.Prelude.{
  ℕ, ◌+◌, ltb, Bool, true, false, List, [], Option, none, some, String, Result, ok, err,
  if◌then◌else◌, ◌≡◌, refl,
}
use presence_bridge.Runtime.{Runtime}
use presence_bridge.Windows.Keys.{KeyRecord}
use presence_bridge.Windows.Keys.Registry.{
  OsError, Key, Children, key, last, denied, child, concat, records_of, failed, after, visit_values,
  visit_next, visit, visit_children, read_irks, registry_path,
}

abbrev Outcome : Type 0
Outcome = Result OsError (List KeyRecord)

-- What the first gives, the second gives too.
abbrev Agrees : Outcome → Outcome → Type 0
Agrees r s = (rs : List KeyRecord) → r ≡ ok rs → s ≡ ok rs

after-Agrees :
    (found : List KeyRecord) (r s : Outcome) → Agrees r s → Agrees (after found r) (after found s)
unfolding after
after-Agrees found (ok rest) s a rs h = rw (a rest refl) h
after-Agrees found (err e) s a rs h = cc (h)

visit_values-Agrees :
    (found : List KeyRecord) (ended : Bool) (r s : Outcome)
    → Agrees r s
    → Agrees (visit_values true found ended r) (visit_values false found ended s)
unfolding visit_values
visit_values-Agrees found true r s a rs h = after-Agrees found r s a rs h
visit_values-Agrees found false r s a rs h = cc (h)

visit_next-Agrees :
    (r s r' s' : Outcome) → Agrees r s → Agrees r' s' → Agrees (visit_next r r') (visit_next s s')
unfolding visit_next
visit_next-Agrees (ok found) s r' s' a b rs h = rw (a found refl) (after-Agrees found r' s' b rs h)
visit_next-Agrees (err e) s r' s' a b rs h = cc (h)

if-Agrees :
    (b : Bool) (t r s : Outcome) → Agrees r s → Agrees (if b then t else r) (if b then t else s)
if-Agrees true t r s a rs h = h
if-Agrees false t r s a rs h = a rs h

failed-Agrees :
    (b : Bool) → Agrees (if b then ok [] else failed true []) (if b then ok [] else failed false [])
unfolding failed
failed-Agrees true rs h = h
failed-Agrees false rs h = cc (h)

module _ (rt : Runtime) where
  mutual
    unfolding visit

    visit-Agrees :
        (path : String) (depth : ℕ) (k : Key)
        → Agrees (visit rt true path depth k) (visit rt false path depth k)
    visit-Agrees path depth (key entries ended children) = if-Agrees (ltb 4 depth) (ok []) _ _ (
        visit_values-Agrees (records_of rt path entries) ended _ _
          (visit_children-Agrees path depth children))

    visit_children-Agrees :
        (path : String) (depth : ℕ) (cs : Children)
        → Agrees (visit_children rt true path depth cs) (visit_children rt false path depth cs)
    visit_children-Agrees path depth (last clean) = failed-Agrees clean
    visit_children-Agrees path depth (denied name rest) = λ rs h. cc (h)
    visit_children-Agrees path depth (child name opened rest) =
        visit_next-Agrees _ _ _ _ (visit-Agrees (concat path (concat "\\" name)) (depth + 1) opened)
          (visit_children-Agrees path depth rest)

  -- A strict read that succeeds gives the same keys as the lenient read of the same registry.
  pub read_irks_strict :
      (root : Option Key) (found : List KeyRecord)
      → read_irks rt true root ≡ ok found
      → read_irks rt false root ≡ ok found
  unfolding read_irks failed
  read_irks_strict none found h = cc (h)
  read_irks_strict (some root) found h = visit-Agrees registry_path 0 root found h
