-- ===== src/Migration/Claim/Absolute.antt =====
-- Only absolute paths are claimed.
use agent_coderag.Prelude.{
  ◌≡◌, ap, arith, Bool-cases, All, All-append, List, [], ◌∷◌, ◌++◌, Text, some, Option-cases, inl,
  inr, Bool, true, false, if◌then◌else◌, contains, refl, text_eq,
}
use mathlib.Core.Path.{subst}
use agent_coderag.Prelude.Dict.{Dict, keys, All-keys-insert}
use agent_coderag.Core.{KnowledgeUnit, Outcome, ok, raised, Outcome-cases}
use agent_coderag.Paths.Pure.{FilePath, of_text}
use agent_coderag.Paths.Resolve.{System, project_relative_posix}
use agent_coderag.Migration.Claim.{
  Counter, Claims, no_claims, claim, olds, claim_by_place, claim_places, claim_by_hashes,
  claim_files, claim_relative_paths, first_match, same_counter, groups_from,
}
use agent_coderag.Migration.Claim.Once.{olds-snoc}

abbrev pub IsAbsolute : Text → Type 0
IsAbsolute t = (of_text t).absolute ≡ true

pub groups_from-IsAbsolute :
    (units : List KnowledgeUnit) (groups : Dict Text Counter)
    → All IsAbsolute (keys groups)
    → All IsAbsolute (keys (groups_from units groups))
unfolding groups_from
groups_from-IsAbsolute [] groups h = h
groups_from-IsAbsolute (u ∷ units) groups h = elim (Bool-cases (of_text u.path).absolute) [
  | inl e ↦
      rw (groups_from, e)
        (groups_from-IsAbsolute units _ (All-keys-insert IsAbsolute u.path _ groups e h))
  | inr e ↦ rw (groups_from, e) (groups_from-IsAbsolute units groups h)
]

keys-snoc :
    {V : Type 0} (d : Dict Text V) (k : Text) (v : V)
    → keys (d ++ ((k, v) ∷ [])) ≡ keys d ++ (k ∷ [])
keys-snoc [] k v = refl
keys-snoc ((j, w) ∷ d) k v = ap (λ ks. j ∷ ks) (keys-snoc d k v)

module _ (P : Text → Type 0) where
  -- What is claimed and what waits has the property.
  record Claimed (c : Claims) : Type 0 where
    mapped : All P (olds c.mapping)
    waiting : All P (keys c.pending)

  Claimed-claim : (old rel : Text) (c : Claims) → P old → Claimed c → Claimed (claim old rel c)
  unfolding claim
  Claimed-claim old rel c p h = record {
    mapped =
        rw (olds-snoc c.mapping old rel)
          (All-append P (olds c.mapping) (old ∷ []) h.mapped (p, tt));
    waiting = h.waiting;
  }

  Claimed-wait :
      (old : Text) (hashes : Counter) (c : Claims)
      → P old
      → Claimed c
      → Claimed (record c { pending = c.pending ++ ((old, hashes) ∷ []) })
  Claimed-wait old hashes c p h = record {
    mapped = h.mapped;
    waiting =
        rw (keys-snoc c.pending old hashes)
          (All-append P (keys c.pending) (old ∷ []) h.waiting (p, tt));
  }

  first_match-All :
      (m : List (Text × Text)) (hashes : Counter) (pending : List (Text × Counter)) (old : Text)
      → All P (keys pending)
      → first_match m hashes pending ≡ some old
      → P old
  unfolding first_match
  first_match-All m hashes [] old all h = absurd (ground arith)
  first_match-All m hashes ((k, group) ∷ pending) old (p, all) h =
      elim (Bool-cases (contains (olds m) k)) [
        | inl e ↦ first_match-All m hashes pending old all (ground arith)
        | inr e ↦ elim (Bool-cases (same_counter group hashes)) [
          | inl q ↦ subst P (let same : k ≡ old = ground arith in same) p
          | inr q ↦ first_match-All m hashes pending old all (ground arith)
        ]
      ]

  module _ (sys : System) (root : FilePath) where
    Claimed-by_place :
        (old : Text) (hashes : Counter) (c : Claims)
        → P old
        → Claimed c
        → Claimed (claim_by_place sys root old hashes c)
    unfolding claim_by_place
    Claimed-by_place old hashes c p h =
        placed (of_text old).absolute (project_relative_posix sys (of_text old) root)
      where
        wait : Claimed (record c { pending = c.pending ++ ((old, hashes) ∷ []) })
        wait = Claimed-wait old hashes c p h

        free_or_not : (rel : Text) (b : Bool) → Claimed (if b then c else claim old rel c)
        free_or_not rel true = h
        free_or_not rel false = Claimed-claim old rel c p h

        placed :
            (b : Bool) (r : Outcome Text)
            → let waits = record c { pending = c.pending ++ ((old, hashes) ∷ []) } in
              Claimed (
                if b
                then elim r as (λ _. Claims) [
                  | raised e ↦ waits
                  | ok rel ↦ if contains c.taken rel then c else claim old rel c
                ]
                else waits)
        placed false r = wait
        placed true (raised e) = wait
        placed true (ok rel) = free_or_not rel (contains c.taken rel)

    Claimed-places :
        (groups : Dict Text Counter) (c : Claims)
        → All P (keys groups)
        → Claimed c
        → Claimed (claim_places sys root groups c)
    unfolding claim_places
    Claimed-places [] c all h = h
    Claimed-places ((old, hashes) ∷ groups) c (p, all) h =
        Claimed-places groups _ all (Claimed-by_place old hashes c p h)

    Claimed-by_hashes :
        (path : FilePath) (hashes : Counter) (c : Claims)
        → Claimed c
        → Claimed (claim_by_hashes sys root path hashes c)
    unfolding claim_by_hashes
    Claimed-by_hashes path hashes c h =
        elim (Outcome-cases (project_relative_posix sys path root)) [
          | inr (x, k) ↦ rw (claim_by_hashes, k) h
          | inl (rel, k) ↦ elim (Bool-cases (contains c.taken rel)) [
            | inl q ↦ rw (claim_by_hashes, k, q) h
            | inr q ↦ elim (Option-cases (first_match c.mapping hashes c.pending)) [
              | inl m ↦ rw (claim_by_hashes, k, q, m) h
              | inr (old, m) ↦
                  rw (claim_by_hashes, k, q, m)
                    (Claimed-claim old rel c
                      (first_match-All c.mapping hashes c.pending old h.waiting m) h)
            ]
          ]
        ]

    Claimed-files :
        (files : List (FilePath × Counter)) (c : Claims)
        → Claimed c
        → Claimed (claim_files sys root files c)
    unfolding claim_files
    Claimed-files [] c h = h
    Claimed-files ((path, hashes) ∷ files) c h =
        Claimed-files files _ (Claimed-by_hashes path hashes c h)

    -- A property of all the groups is one of all the claimed paths.
    pub claim_relative_paths-All :
        (groups : Dict Text Counter) (files : List (FilePath × Counter))
        → All P (keys groups)
        → All P (olds (claim_relative_paths sys root groups files))
    unfolding claim_relative_paths olds
    claim_relative_paths-All groups files all =
        (Claimed-files files _
          (Claimed-places groups no_claims all (record { mapped = tt; waiting = tt }))).mapped
