-- ===== src/Migration/Claim/Once.antt =====
-- No old path and no relative path is claimed twice.
use agent_coderag.Prelude.{
  ◌≡◌, refl, true, false, List, [], ◌∷◌, ◌++◌, Text, text_eq, ◌==◌, arith, if◌then◌else◌, contains,
  contains-append, Distinct, Distinct-snoc, Bool-cases, Option, none, some, inl, inr, Bool, sym,
  ◌≢◌, All, All-both, All-of,
}
use agent_coderag.Prelude.Dict.{Dict, keys, insert, All-keys-insert}
use agent_coderag.Core.{Outcome, ok, raised, KnowledgeUnit}
use agent_coderag.Paths.Pure.{FilePath, of_text}
use agent_coderag.Paths.Resolve.{System, project_relative_posix}
use agent_coderag.Migration.Claim.{
  Counter, Claims, no_claims, claim, olds, news, claim_by_place, claim_places, claim_by_hashes,
  claim_files, claim_relative_paths, first_match, groups_from,
}

pub olds-snoc :
    (m : List (Text × Text)) (old rel : Text) → olds (m ++ ((old, rel) ∷ [])) ≡ olds m ++ (old ∷ [])
unfolding olds
olds-snoc [] old rel = refl
olds-snoc (_ ∷ m) old rel = rw (olds-snoc m old rel)

news-snoc :
    (m : List (Text × Text)) (old rel : Text) → news (m ++ ((old, rel) ∷ [])) ≡ news m ++ (rel ∷ [])
unfolding news
news-snoc [] old rel = refl
news-snoc (_ ∷ m) old rel = rw (news-snoc m old rel)

Distinct-keys-insert :
    {V : Type 0} (k : Text) (v : V) (d : Dict Text V)
    → Distinct (keys d)
    → Distinct (keys (insert k v d))
unfolding insert
Distinct-keys-insert k v [] h = (tt, tt)
Distinct-keys-insert k v ((j, w) ∷ d) h = elim (Bool-cases (k == j)) [
  | inl e ↦ let same : k ≡ j = ground arith in rw (e, same) h
  | inr e ↦
      rw e
        (All-keys-insert (λ y. j ≢ y) k v d (λ q. ground arith) h.0, Distinct-keys-insert k v d h.1)
]

groups_from-Distinct :
    (units : List KnowledgeUnit) (groups : Dict Text Counter)
    → Distinct (keys groups)
    → Distinct (keys (groups_from units groups))
unfolding groups_from
groups_from-Distinct [] groups h = h
groups_from-Distinct (u ∷ units) groups h = elim (Bool-cases (of_text u.path).absolute) [
  | inl e ↦ rw e (groups_from-Distinct units _ (Distinct-keys-insert u.path _ groups h))
  | inr e ↦ rw e (groups_from-Distinct units groups h)
]

-- The claims are distinct on both sides, and the relative paths are those that are taken.
record IsOnce (c : Claims) : Type 0 where
  old_once : Distinct (olds c.mapping)
  new_once : Distinct (news c.mapping)
  taken : (t : Text) → contains c.taken t ≡ contains (news c.mapping) t

-- One round: nothing is claimed, or a relative path that is free goes to this old path.
data Round (old : Text) (c : Claims) : Claims → Type 0 where
  waits : (pending : List (Text × Counter)) → Round old c (record c { pending = pending })
  claims : (rel : Text) → contains c.taken rel ≡ false → Round old c (claim old rel c)

skips : (old : Text) (c : Claims) → Round old c c
skips old c = waits c.pending

Round-IsOnce :
    (old : Text) (c d : Claims)
    → IsOnce c
    → contains (olds c.mapping) old ≡ false
    → Round old c d
    → IsOnce d
unfolding claim
Round-IsOnce old c d h unclaimed (waits pending) = record {
  old_once = h.old_once;
  new_once = h.new_once;
  taken = h.taken;
}
Round-IsOnce old c d h unclaimed (claims rel free) = record {
  old_once =
      rw (olds-snoc c.mapping old rel) (Distinct-snoc (olds c.mapping) old h.old_once unclaimed);
  new_once =
      rw (news-snoc c.mapping old rel)
        (Distinct-snoc (news c.mapping) rel h.new_once (ground (arith, h.taken rel)));
  taken = λ t.
      rw (news-snoc c.mapping old rel)
        (ground (arith, h.taken t, contains-append t (news c.mapping) (rel ∷ [])));
}

-- After a round, the claimed old paths are those before and perhaps this one.
Round-olds :
    (old : Text) (c d : Claims) (t : Text)
    → Round old c d
    → t ≢ old
    → contains (olds c.mapping) t ≡ false
    → contains (olds d.mapping) t ≡ false
unfolding claim
Round-olds old c d t (waits pending) n h = h
Round-olds old c d t (claims rel free) n h =
    rw (olds-snoc c.mapping old rel) (ground (arith, contains-append t (olds c.mapping) (old ∷ [])))

claim_if_free :
    (old rel : Text) (c : Claims)
    → Round old c (if contains c.taken rel then c else claim old rel c)
claim_if_free old rel c = pick (contains c.taken rel) refl
  where
    pick : (b : Bool) → contains c.taken rel ≡ b → Round old c (if b then c else claim old rel c)
    pick true e = skips old c
    pick false e = claims rel e

first_match-unclaimed :
    (m : List (Text × Text)) (hashes : Counter) (pending : List (Text × Counter)) (old : Text)
    → first_match m hashes pending ≡ some old
    → contains (olds m) old ≡ false
unfolding first_match
first_match-unclaimed m hashes [] old h = cc
first_match-unclaimed m hashes (_ ∷ pending) old h =
    ground (arith, first_match-unclaimed m hashes pending old)

module _ (sys : System) (root : FilePath) where
  claim_by_place-Round :
      (old : Text) (hashes : Counter) (c : Claims)
      → Round old c (claim_by_place sys root old hashes c)
  unfolding claim_by_place
  claim_by_place-Round old hashes c =
      placed (of_text old).absolute (project_relative_posix sys (of_text old) root)
    where
      placed :
          (b : Bool) (r : Outcome Text)
          → let wait = record c { pending = c.pending ++ ((old, hashes) ∷ []) } in
            Round old c (
              if b
              then elim r as (λ _. Claims) [
                | raised e ↦ wait
                | ok rel ↦ if contains c.taken rel then c else claim old rel c
              ]
              else wait)
      placed false r = waits _
      placed true (raised e) = waits _
      placed true (ok rel) = claim_if_free old rel c

  claim_places-IsOnce :
      (groups : Dict Text Counter) (c : Claims)
      → Distinct (keys groups)
      → All (λ k. contains (olds c.mapping) k ≡ false) (keys groups)
      → IsOnce c
      → IsOnce (claim_places sys root groups c)
  unfolding claim_places
  claim_places-IsOnce [] c d free h = h
  claim_places-IsOnce ((old, hashes) ∷ groups) c (fresh, d) (unclaimed, free) h =
      let round = claim_by_place-Round old hashes c in
      claim_places-IsOnce groups _ d
        (All-both (keys groups) (λ k n f. Round-olds old c _ k round (λ e. n (sym e)) f) fresh free)
        (Round-IsOnce old c _ h unclaimed round)

  claim_by_hashes-IsOnce :
      (path : FilePath) (hashes : Counter) (c : Claims)
      → IsOnce c
      → IsOnce (claim_by_hashes sys root path hashes c)
  unfolding claim_by_hashes
  claim_by_hashes-IsOnce path hashes c h = placed (project_relative_posix sys path root)
    where
      matched :
          (rel : Text) (m : Option Text)
          → contains c.taken rel ≡ false
          → first_match c.mapping hashes c.pending ≡ m
          → IsOnce (elim m as (λ _. Claims) [ none ↦ c | some old ↦ claim old rel c ])
      matched rel none free e = h
      matched rel (some old) free e =
          Round-IsOnce old c _ h (first_match-unclaimed c.mapping hashes c.pending old e)
            (claims rel free)

      free_or_not :
          (rel : Text) (b : Bool)
          → contains c.taken rel ≡ b
          → IsOnce (
              if b then c else elim (first_match c.mapping hashes c.pending) as (λ _. Claims) [
                | none ↦ c
                | some old ↦ claim old rel c
              ])
      free_or_not rel true e = h
      free_or_not rel false e = matched rel (first_match c.mapping hashes c.pending) e refl

      placed :
          (r : Outcome Text)
          → IsOnce (elim r as (λ _. Claims) [
            | raised e ↦ c
            | ok rel ↦
                if contains c.taken rel
                then c
                else elim (first_match c.mapping hashes c.pending) as (λ _. Claims) [
                  | none ↦ c
                  | some old ↦ claim old rel c
                ]
          ])
      placed (raised e) = h
      placed (ok rel) = free_or_not rel (contains c.taken rel) refl

  claim_files-IsOnce :
      (files : List (FilePath × Counter)) (c : Claims)
      → IsOnce c
      → IsOnce (claim_files sys root files c)
  unfolding claim_files
  claim_files-IsOnce [] c h = h
  claim_files-IsOnce ((path, hashes) ∷ files) c h =
      claim_files-IsOnce files _ (claim_by_hashes-IsOnce path hashes c h)

  claims-IsOnce :
      (groups : Dict Text Counter) (files : List (FilePath × Counter))
      → Distinct (keys groups)
      → IsOnce (claim_files sys root files (claim_places sys root groups no_claims))
  unfolding olds news
  claims-IsOnce groups files d = claim_files-IsOnce files _ (
      claim_places-IsOnce groups no_claims d (All-of _ (λ k. refl) (keys groups))
        (record { old_once = tt; new_once = tt; taken = λ t. refl }))

  -- No old path is rewritten twice, and no relative path is given to two old paths.
  pub claim_relative_paths-Distinct :
      (units : List KnowledgeUnit) (files : List (FilePath × Counter))
      → let mapping = claim_relative_paths sys root (groups_from units []) files in
        Distinct (olds mapping) × Distinct (news mapping)
  unfolding claim_relative_paths
  claim_relative_paths-Distinct units files =
      let once = claims-IsOnce (groups_from units []) files (groups_from-Distinct units [] tt) in
      (once.old_once, once.new_once)
