-- ===== src/Discovery/Walk/Visited.antt =====
-- Which files the walk visits, and what it finds.
use agent_coderag.Prelude.{
  ℕ, zero, suc, ◌≡◌, refl, true, false, not, ◌||◌, List, [], ◌∷◌, text_eq, inl, inr, arith,
  contains, contains-false, keep-All, All, All-append, All-map_of, Distinct, Bool-cases,
  Option-cases,
}
use agent_coderag.Core.{KnowledgeUnit, Outcome-cases}
use agent_coderag.Paths.Pure.{FilePath, as_posix}
use agent_coderag.Discovery.Walk.{Explorer, Walk, follow, visit, recursive_extract, extract_all}

module _ (explorer : Explorer) where
  -- No file is visited twice, every file that is visited is there, and only listed units are found.
  pub record IsWalk (w : Walk) : Type 0 where
    pub once : Distinct w.visited
    pub there : All (λ p. (f : FilePath) × (p ≡ as_posix f) × (explorer.exists f ≡ true)) w.visited
    pub public : All (λ (u : KnowledgeUnit). explorer.is_listed u ≡ true) w.results

  visit-IsWalk :
      (path : FilePath) (units : List KnowledgeUnit) (w : Walk)
      → contains w.visited (as_posix path) ≡ false
      → explorer.exists path ≡ true
      → IsWalk w
      → IsWalk (visit explorer path units w)
  unfolding visit
  visit-IsWalk path units w new there i = record {
    once = (
      All-map_of w.visited (λ q n p. n (cc)) (contains-false (as_posix path) w.visited new),
      i.once,
    );
    there = ((path, refl, there), i.there);
    public = All-append _ w.results _ i.public (keep-All explorer.is_listed units);
  }

  follow-IsWalk :
      (next : FilePath → Walk → Walk) (current : FilePath) (units : List KnowledgeUnit) (w : Walk)
      → ((p : FilePath) (v : Walk) → IsWalk v → IsWalk (next p v))
      → IsWalk w
      → IsWalk (follow explorer next current units w)
  unfolding follow
  follow-IsWalk next current [] w keeps i = i
  follow-IsWalk next current (u ∷ units) w keeps i =
      elim (Option-cases (explorer.target current u)) [
        | inl e ↦ rw (follow, e) (follow-IsWalk next current units w keeps i)
        | inr (target, e) ↦
            rw (follow, e)
              (follow-IsWalk next current units (next target w) keeps (keeps target w i))
      ]

  recursive_extract-IsWalk :
      (levels : ℕ) (path : FilePath) (w : Walk)
      → IsWalk w
      → IsWalk (recursive_extract explorer levels path w)
  unfolding recursive_extract
  recursive_extract-IsWalk zero path w i = i
  recursive_extract-IsWalk (suc levels) path w i =
      let deeper = recursive_extract-IsWalk levels in
      elim (Bool-cases (contains w.visited (as_posix path) || not (explorer.exists path))) [
        | inl e ↦ rw (recursive_extract, e) i
        | inr e ↦
            let new : contains w.visited (as_posix path) ≡ false = ground arith in
            let there : explorer.exists path ≡ true = ground arith in
            elim (Outcome-cases (explorer.distill_file (as_posix path))) [
              | inr (x, k) ↦ rw (recursive_extract, e, k) (visit-IsWalk path [] w new there i)
              | inl (units, k) ↦
                  rw (recursive_extract, e, k)
                    (follow-IsWalk (recursive_extract explorer levels) path units _ deeper
                      (visit-IsWalk path units w new there i))
            ]
      ]

  -- A walk through a library visits no file twice, also where files lead to one another, visits
  -- only files that are there, and finds only units that are to be listed.
  pub extract_all-IsWalk :
      (paths : List FilePath) (w : Walk) → IsWalk w → IsWalk (extract_all explorer paths w)
  unfolding extract_all
  extract_all-IsWalk [] w i = i
  extract_all-IsWalk (p ∷ paths) w i =
      extract_all-IsWalk paths (recursive_extract explorer _ p w) (recursive_extract-IsWalk _ p w i)
