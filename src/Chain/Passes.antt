-- ===== src/Chain/Passes.antt =====
-- How far a list gets along a chain of plugins, and who keeps it.
use recd.Common.{
  not, ℕ, zero, suc, ◌<◌, ◌≡◌, refl, Bool, true, ◌&&◌, none, some, List, [], ◌∷◌, map, arith,
  length, Bool-cases, inl, inr,
}
use recd.Server.{SampleData}
use recd.Chain.{Plugin, keep, last_list, is_md5, put_data}

-- No MD5 plugin but the last one.
unfoldable pub ends_well : List Plugin → Bool
ends_well [] = true
ends_well (p ∷ []) = true
ends_well (p ∷ q ∷ ps) = not (is_md5 p.kind) && ends_well (q ∷ ps)

unfoldable pub left_by : List Plugin → List SampleData → List SampleData
left_by [] ls = ls
left_by (p ∷ []) ls = last_list p.kind ls
left_by (p ∷ q ∷ ps) ls = left_by (q ∷ ps) ls

-- The call on a chain without an MD5 plugin in front of another plugin ends: every plugin gets the whole list, and the
-- last one decides what is left of it.
pub put_data_total :
    (ps : List Plugin) (ls : List SampleData) (n : ℕ)
    → ends_well ps ≡ true
    → length ps < n
    → put_data n ps ls ≡ some (map (keep ls) ps, left_by ps ls)
unfolding put_data ends_well left_by
put_data_total ps ls zero ok h = absurd (omega arith)
put_data_total [] ls (suc n) ok h = refl
put_data_total (p ∷ []) ls (suc n) ok h = refl
put_data_total (p ∷ q ∷ ps) ls (suc n) ok h = elim (Bool-cases (is_md5 p.kind)) [
  | inl bad ↦ absurd (ground (arith, ok, bad))
  | inr good ↦
      rw (good, put_data_total (q ∷ ps) ls n (ground (arith, ok, good)) (omega (arith, h))) refl
]

-- The call on a chain in which an MD5 plugin has another one behind it never ends, however much depth it is given.
pub put_data_endless :
    (p q : Plugin) (ps : List Plugin) (ls : List SampleData) (n : ℕ)
    → is_md5 p.kind ≡ true
    → put_data n (p ∷ q ∷ ps) ls ≡ none
unfolding put_data
put_data_endless p q ps ls zero e = refl
put_data_endless p q ps ls (suc n) e = rw e (put_data_endless p q ps ls n e)
