-- ===== src/Consensus/Liveness/Counts.antt =====
-- crates/hotmint-consensus/src/liveness.rs: the counts are those of the commits recorded.
use native.Mathlib.Nat.{zero-mul}
use hotmint.Base.Map
use hotmint.Base.{
  ltb, leb, ◌==◌, if◌then◌else◌, ==_iff, ltb→lt, Bool-cases, Option-cases, if_cases, length, any,
  retain, All, ℕ, suc, ◌+◌, ◌*◌, ◌≤◌, ◌<◌, ◌≡◌, refl, ap, ◌∙◌, ◌⊎◌, inl, inr, Bool, true, false,
  not, ◌&&◌, ◌||◌, Option, none, some, List, [], ◌∷◌, map, arith,
}
use hotmint.Base.Distinct.{NotIn, Distinct}
use hotmint.Base.Keys.{DistinctKeys, each_get, DistinctKeys-insert}
use hotmint.Base.Map.{get-insert, nat_eq, text_eq}
use hotmint.Base.Sort.{any-sort, All-sort}
use hotmint.Consensus.Liveness.{
  LivenessTracker, missed_of, record_misses, record_commit, Offline, is_offline, offline_entry,
  offline_validators, reset, stats,
}
use hotmint.Consensus.VoteCollector.{vote_key_eq}
use hotmint.Staking.Store.{stake_key_eq}
use hotmint.Types.Validator.{ValidatorInfo, ValidatorSet}
use hotmint.Types.Validator.Valid.{ids, IsValid}

-- Whether a commit's flags show no signature of a member.
abbrev pub misses_in : ℕ → List ValidatorInfo → List Bool → Bool
misses_in id [] bs = false
misses_in id (v ∷ vs) [] = v.id == id || misses_in id vs []
misses_in id (v ∷ vs) (b ∷ bs) = (v.id == id && not b) || misses_in id vs bs

misses_in-other :
    (id : ℕ) (vs : List ValidatorInfo) (bs : List Bool)
    → NotIn id (ids vs)
    → misses_in id vs bs ≡ false
misses_in-other id [] bs n = refl
misses_in-other id (v ∷ vs) [] n = ground (arith, n.0, misses_in-other id vs [] n.1)
misses_in-other id (v ∷ vs) (b ∷ bs) n = ground (arith, n.0, misses_in-other id vs bs n.1)

bump :
    (id j : ℕ) (m : List (ℕ × ℕ))
    → missed_of id (Map.insert j (suc (missed_of j m)) m)
      ≡ missed_of id m + (if j == id then 1 else 0)
bump id j m = elim (Bool-cases (j == id)) [
  | inl hit ↦ ground (
    arith,
    hit,
    Map.get-insert j id (suc (missed_of j m)) m,
    ap (λ i. missed_of i m) ((==_iff j id).0 hit),
  )
  | inr miss ↦ ground (arith, miss, Map.get-insert j id (suc (missed_of j m)) m)
]

abbrev pub one_if : Bool → ℕ
one_if b = if b then 1 else 0

record_misses-missed :
    (id : ℕ) (vs : List ValidatorInfo) (bs : List Bool) (m : List (ℕ × ℕ))
    → Distinct (ids vs)
    → missed_of id (record_misses vs bs m) ≡ missed_of id m + one_if (misses_in id vs bs)
unfolding record_misses
record_misses-missed id [] bs m d = omega arith
record_misses-missed id (v ∷ vs) [] m d =
    let next = Map.insert v.id (suc (missed_of v.id m)) m in
    let rest = record_misses-missed id vs [] next d.1 in
    elim (Bool-cases (v.id == id)) [
      | inl hit ↦ ground (
        arith,
        hit,
        rest,
        bump id v.id m,
        misses_in-other v.id vs [] d.0,
        ap (λ i. misses_in i vs []) ((==_iff v.id id).0 hit),
      )
      | inr other ↦ ground (arith, other, rest, bump id v.id m)
    ]
record_misses-missed id (v ∷ vs) (true ∷ bs) m d =
    ground (arith, record_misses-missed id vs bs m d.1)
record_misses-missed id (v ∷ vs) (false ∷ bs) m d =
    let next = Map.insert v.id (suc (missed_of v.id m)) m in
    let rest = record_misses-missed id vs bs next d.1 in
    elim (Bool-cases (v.id == id)) [
      | inl hit ↦ ground (
        arith,
        hit,
        rest,
        bump id v.id m,
        misses_in-other v.id vs bs d.0,
        ap (λ i. misses_in i vs bs) ((==_iff v.id id).0 hit),
      )
      | inr other ↦ ground (arith, other, rest, bump id v.id m)
    ]

-- The commits of an epoch, one after another.
unfoldable pub record_all : LivenessTracker → List (ValidatorSet × List Bool) → LivenessTracker
record_all t [] = t
record_all t ((s, signers) ∷ rest) = record_all (record_commit t s signers) rest

-- In how many commits a member's signature is missing.
abbrev pub count_misses : ℕ → List (ValidatorSet × List Bool) → ℕ
count_misses id [] = 0
count_misses id ((s, signers) ∷ rest) =
    one_if (misses_in id s.validators signers) + count_misses id rest

record_all-counts :
    (t : LivenessTracker) (id : ℕ) (commits : List (ValidatorSet × List Bool))
    → All (λ c. IsValid c.0) commits
    → (missed_of id (record_all t commits).missed ≡ missed_of id t.missed + count_misses id commits)
      × ((record_all t commits).total_commits ≡ t.total_commits + length commits)
unfolding record_all record_commit
record_all-counts t id [] valid = (omega arith, omega arith)
record_all-counts t id ((s, signers) ∷ rest) valid =
    let step =
      record_misses-missed id s.validators signers t.missed valid.0.admissible.distinct_ids in
    let (later, total) = record_all-counts (record_commit t s signers) id rest valid.1 in
    (omega (arith, later, step), omega (arith, total))

-- After the commits recorded since a reset, each with a valid set, the tracker's statistics of a
-- validator are the number of commits without its signature, and the number of commits.
pub stats-record_all :
    (t : LivenessTracker) (id : ℕ) (commits : List (ValidatorSet × List Bool))
    → All (λ c. IsValid c.0) commits
    → ((stats (record_all (reset t) commits) id).0 ≡ count_misses id commits)
      × ((stats (record_all (reset t) commits) id).1 ≡ length commits)
unfolding reset stats
stats-record_all t id commits valid =
    let (misses, total) = record_all-counts (reset t) id commits valid in
    (ground (arith, misses, nothing), omega (arith, total))
  where
    nothing : Map.get {V = ℕ} id [] ≡ none
    nothing = unfold Map.get in refl

-- An entry listed is over the threshold, with the counts recorded.
abbrev pub IsOver : LivenessTracker → Offline → Type 0
IsOver t o =
    (t.threshold_num * o.commits < o.misses * t.threshold_den)
    × (stats t o.id ≡ (o.misses, o.commits))

listed :
    (t : LivenessTracker) (m : List (ℕ × ℕ))
    → All (λ kv. Map.get kv.0 t.missed ≡ some kv.1) m
    → All (IsOver t) (map (offline_entry t) (retain (is_offline t) m))
unfolding stats
listed t [] h = tt
listed t (kv ∷ m) h =
    if_cases (λ l. All (IsOver t) (map (offline_entry t) l)) (is_offline t kv)
      (λ over. (
        (
          ground arith,
          ap (λ (o : Option ℕ). ((elim o [ none ↦ 0 | some n ↦ n ]), t.total_commits)) h.0,
        ),
        listed t m h.1,
      ))
      (λ _. listed t m h.1)

unlisted :
    (t : LivenessTracker) (id n : ℕ) (m : List (ℕ × ℕ))
    → Map.get id m ≡ some n
    → is_offline t (id, n) ≡ true
    → any (λ (o : Offline). o.id == id) (map (offline_entry t) (retain (is_offline t) m)) ≡ true
unfolding Map.get
unlisted t id n [] g over = cc
unlisted t id n ((k, v) ∷ m) g over = elim (Bool-cases (k == id)) [
  | inl hit ↦
      let same : v ≡ n = ground (arith, g, hit) in
      let over_here : is_offline t (k, v) ≡ true = rw same over in
      rw over_here (ground (arith, hit))
  | inr miss ↦
      let rest = unlisted t id n m (ground (arith, g, miss)) over in
      if_cases (λ l. any (λ (o : Offline). o.id == id) (map (offline_entry t) l) ≡ true)
        (is_offline t (k, v)) (λ _. ground (arith, rest)) (λ _. rest)
]

record_misses-DistinctKeys :
    (vs : List ValidatorInfo) (bs : List Bool) (m : List (ℕ × ℕ))
    → DistinctKeys m
    → DistinctKeys (record_misses vs bs m)
unfolding record_misses
record_misses-DistinctKeys [] bs m d = d
record_misses-DistinctKeys (v ∷ vs) [] m d =
    record_misses-DistinctKeys vs [] _ (DistinctKeys-insert v.id _ m d)
record_misses-DistinctKeys (v ∷ vs) (true ∷ bs) m d = record_misses-DistinctKeys vs bs m d
record_misses-DistinctKeys (v ∷ vs) (false ∷ bs) m d =
    record_misses-DistinctKeys vs bs _ (DistinctKeys-insert v.id _ m d)

record_all-DistinctKeys :
    (t : LivenessTracker) (commits : List (ValidatorSet × List Bool))
    → DistinctKeys t.missed
    → DistinctKeys (record_all t commits).missed
unfolding record_all record_commit
record_all-DistinctKeys t [] d = d
record_all-DistinctKeys t ((s, signers) ∷ rest) d =
    record_all-DistinctKeys (record_commit t s signers) rest
      (record_misses-DistinctKeys s.validators signers t.missed d)

offline-listed :
    (t : LivenessTracker) → DistinctKeys t.missed → All (IsOver t) (offline_validators t)
unfolding offline_validators
offline-listed t d =
    if_cases (All (IsOver t)) (t.total_commits == 0) (λ _. tt)
      (λ _. All-sort (IsOver t) (λ a b. leb a.id b.id) _ (listed t t.missed (each_get t.missed d)))

offline-unlisted :
    (t : LivenessTracker) (id : ℕ)
    → 0 < t.total_commits
    → t.threshold_num * t.total_commits < missed_of id t.missed * t.threshold_den
    → any (λ (o : Offline). o.id == id) (offline_validators t) ≡ true
unfolding offline_validators
offline-unlisted t id some_commits over = elim (Option-cases (Map.get id t.missed)) [
  | inl uncounted ↦ absurd (ground (arith, uncounted, over, zero-mul t.threshold_den))
  | inr (n, counted) ↦
      if_cases (λ l. any (λ (o : Offline). o.id == id) l ≡ true) (t.total_commits == 0)
        (λ none_yet. absurd (ground arith))
        (λ _.
          any-sort (λ a b. leb a.id b.id) (λ (o : Offline). o.id == id) _
          ∙ unlisted t id n t.missed counted (ground (arith, over, counted)))
]

-- In an epoch with commits, the validators listed as offline are exactly those whose missed commits
-- exceed the threshold's share of all commits, each with these two counts.
pub offline_validators_lem :
    (t : LivenessTracker) (commits : List (ValidatorSet × List Bool))
    → All (λ c. IsValid c.0) commits
    → 0 < length commits
    → All
        (IsOver (record_all (reset t) commits))
        (offline_validators (record_all (reset t) commits))
      × ((id : ℕ)
          → (count_misses id commits * (record_all (reset t) commits).threshold_den
              ≤ (record_all (reset t) commits).threshold_num * length commits)
            ⊎ (any (λ (o : Offline). o.id == id) (offline_validators (record_all (reset t) commits))
                ≡ true))
unfolding reset
offline_validators_lem t commits valid some_commits = (
  offline-listed (record_all (reset t) commits) (record_all-DistinctKeys (reset t) commits tt),
  (λ id.
      let u = record_all (reset t) commits in
      let (misses, total) = record_all-counts (reset t) id commits valid in
      let empty : missed_of id [] ≡ 0 = unfold Map.get in refl in
      let exact : missed_of id u.missed ≡ count_misses id commits = omega (arith, misses, empty) in
      let all : u.total_commits ≡ length commits = omega (arith, total) in
      elim (Bool-cases
        (ltb (u.threshold_num * length commits) (count_misses id commits * u.threshold_den))) [
          | inl over ↦ inr (
              offline-unlisted u id (omega (arith, all, some_commits))
                (rw (all, exact) (ltb→lt _ _ over)))
          | inr under ↦ inl (ground arith)
        ]),
)
