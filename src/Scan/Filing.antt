-- ===== src/Scan/Filing.antt =====
-- The `switch` on a severity that ends each loop of the `prepare…Vulns` functions of
-- api/securitytest: the finding is appended to one of the four lists of the tool's output, or to
-- none of them.
use mathlib.Core.List.{append-nil}
use husky_ci.Base.{
  ◌≡◌, Bool, true, false, Option, none, some, List, [], ◌∷◌, ◌++◌, map, arith, if◌then◌else◌,
  select, snoc_append,
}
use husky_ci.Types.{Vulnerability, TestOutput}

pub data Level : Type 0 where
  no_sec low medium high : Level

abbrev pub push : Level → Vulnerability → TestOutput → TestOutput
push no_sec v out = record out { no_sec_vulns = out.no_sec_vulns ++ v ∷ [] }
push low v out = record out { low_vulns = out.low_vulns ++ v ∷ [] }
push medium v out = record out { medium_vulns = out.medium_vulns ++ v ∷ [] }
push high v out = record out { high_vulns = out.high_vulns ++ v ∷ [] }

-- No `case` of the switch may apply.
abbrev pub file_at : Option Level → Vulnerability → TestOutput → TestOutput
file_at none v out = out
file_at (some l) v out = push l v out

-- The list that `push l` appends to.
abbrev pub at : Level → TestOutput → List Vulnerability
at no_sec out = out.no_sec_vulns
at low out = out.low_vulns
at medium out = out.medium_vulns
at high out = out.high_vulns

abbrev pub same_level : Level → Level → Bool
same_level no_sec no_sec = true
same_level low low = true
same_level medium medium = true
same_level high high = true
same_level _ _ = false

abbrev pub is_level : Level → Option Level → Bool
is_level l none = false
is_level l (some m) = same_level l m

pub at-push :
    (l m : Level) (v : Vulnerability) (out : TestOutput)
    → at l (push m v out) ≡ (if same_level l m then at l out ++ v ∷ [] else at l out)
at-push no_sec m v out = ground arith
at-push low m v out = ground arith
at-push medium m v out = ground arith
at-push high m v out = ground arith

pub at-file_at :
    (l : Level) (o : Option Level) (v : Vulnerability) (out : TestOutput)
    → at l (file_at o v out) ≡ (if is_level l o then at l out ++ v ∷ [] else at l out)
at-file_at l none v out = ground arith
at-file_at l (some m) v out = at-push l m v out

module _ {A : Type 0} (level : A → Option Level) (vuln : A → Vulnerability) where
  -- The loop over the items of a report.
  unfoldable pub file_all : TestOutput → List A → TestOutput
  file_all out [] = out
  file_all out (x ∷ xs) = file_all (file_at (level x) (vuln x) out) xs

  -- What the loop adds to the list of a level, in the order of the report.
  abbrev pub filed : Level → List A → List Vulnerability
  filed l xs = map vuln (select (λ x. is_level l (level x)) xs)

  -- Each list of the output is what it was, followed by the findings of its level.
  pub at-file_all :
      (l : Level) (out : TestOutput) (xs : List A) → at l (file_all out xs) ≡ at l out ++ filed l xs
  unfolding file_all
  at-file_all l out [] = simp append-nil
  at-file_all l out (x ∷ xs) = ground (
    arith,
    at-file_all l (file_at (level x) (vuln x) out) xs,
    at-file_at l (level x) (vuln x) out,
    snoc_append (at l out) (vuln x) (filed l xs),
  )
