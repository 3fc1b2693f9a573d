-- ===== src/Audit/Legacy/Pending/Runs.antt =====
-- Which records make a migration, and which one is found pending, of crates/audit-journal/src/legacy.rs.
use win_profile.Base.{
  ◌+◌, ◌≡◌, refl, sym, ℕ, ◌∙◌, true, false, List, [], ◌∷◌, ◌++◌, Option, none, some, ok,
  text_eq_iff, length, All, All-append, subst, arith, lift, with_error, Result-cases, Bool-cases,
  inl, inr,
}
use win_profile.Base.Hoare.{Gives-bind}
use win_profile.Audit.Legacy.{
  MigrationPhase, prepared, done, phase_number, phase_eq, next, MigrationStateRecord,
}
use win_profile.Audit.Legacy.Calls.{storage, Calls}
use win_profile.Audit.Legacy.Pending.{
  Groups, is_next, follows, check_windows, check_sorted, sort_by_phase, insert_by_phase,
  check_group, unfinished, choose_pending, load_groups, load_pending_from_bootstrap,
}

-- Two records of one migration.
pub record Agrees (a b : MigrationStateRecord) : Type 0 where
  pub source : b.source_identity ≡ a.source_identity
  pub new : b.next_identity ≡ a.next_identity
  pub legacy : b.legacy_name ≡ a.legacy_name
  pub name : b.next_name ≡ a.next_name

is_next-ok :
    (p q : MigrationPhase) → is_next (next p) q ≡ true → phase_number q ≡ phase_number p + 1
unfolding is_next next phase_number
is_next-ok p q h = ground arith

follows-next :
    (a b : MigrationStateRecord)
    → follows a b ≡ true
    → phase_number b.phase ≡ phase_number a.phase + 1
unfolding follows
follows-next a b h = ground (arith, is_next-ok a.phase b.phase)

follows-Agrees : (a b : MigrationStateRecord) → follows a b ≡ true → Agrees b a
unfolding follows
follows-Agrees a b h = record {
  source = ground arith;
  new = ground arith;
  legacy = ground (arith, text_eq_iff a.legacy_name b.legacy_name);
  name = ground (arith, text_eq_iff a.next_name b.next_name);
}

Agrees-refl : (a : MigrationStateRecord) → Agrees a a
Agrees-refl a = record { source = refl; new = refl; legacy = refl; name = refl }

Agrees-trans : (a b c : MigrationStateRecord) → Agrees a b → Agrees b c → Agrees a c
Agrees-trans a b c h g = record {
  source = g.source ∙ h.source;
  new = g.new ∙ h.new;
  legacy = g.legacy ∙ h.legacy;
  name = g.name ∙ h.name;
}

-- One record of each phase, from the phase with this number on.
abbrev pub HasPhases : ℕ → List MigrationStateRecord → Type 0
HasPhases k [] = Unit {0}
HasPhases k (r ∷ rest) = (phase_number r.phase ≡ k) × HasPhases (k + 1) rest

-- Sorted records of one migration, from one phase to the next, up to the latest.
abbrev pub IsRun : MigrationStateRecord → MigrationStateRecord → List MigrationStateRecord → Type 0
IsRun first latest rest =
    All (Agrees latest) (first ∷ rest)
    × (phase_number latest.phase ≡ phase_number first.phase + length rest)
    × HasPhases (phase_number first.phase) (first ∷ rest)

check_windows-IsRun :
    (first latest : MigrationStateRecord) (rest : List MigrationStateRecord)
    → check_windows first rest ≡ ok latest
    → IsRun first latest rest
unfolding check_windows
check_windows-IsRun first latest [] h =
    let e : first ≡ latest = ground arith in
    ((subst (λ x. Agrees x first) e (Agrees-refl first), tt), ground arith, (refl, tt))
check_windows-IsRun first latest (r ∷ rest) h = elim (Bool-cases (follows first r)) [
  | inl next_one ↦
      let (all, number, phases) = check_windows-IsRun r latest rest (ground (arith, next_one)) in
      (
        (Agrees-trans latest r first all.0 (follows-Agrees first r next_one), all),
        omega (arith, number, follows-next first r next_one),
        (refl, subst (λ k. HasPhases k (r ∷ rest)) (follows-next first r next_one) phases),
      )
  | inr gap ↦ ground (arith, gap)
]

phase_eq-prepared : (p : MigrationPhase) → phase_eq p prepared ≡ true → phase_number p ≡ 0
unfolding phase_number
phase_eq-prepared p h = ground arith

check_sorted-IsRun :
    (records : List MigrationStateRecord) (latest : MigrationStateRecord)
    → check_sorted records ≡ ok latest
    → All (Agrees latest) records
      × (length records ≡ phase_number latest.phase + 1)
      × HasPhases 0 records
unfolding check_sorted phase_number
check_sorted-IsRun [] latest h = ground arith
check_sorted-IsRun (first ∷ rest) latest h = elim (Bool-cases (phase_eq first.phase prepared)) [
  | inl start ↦
      let (all, number, phases) = check_windows-IsRun first latest rest (ground (arith, start)) in
      let zero_first = phase_eq-prepared first.phase start in
      (
        all,
        omega (arith, number, zero_first),
        subst (λ k. HasPhases k (first ∷ rest)) zero_first phases,
      )
  | inr late ↦ ground (arith, late)
]

length-insert_by_phase :
    (r : MigrationStateRecord) (records : List MigrationStateRecord)
    → length (insert_by_phase r records) ≡ length records + 1
unfolding insert_by_phase
length-insert_by_phase r [] = refl
length-insert_by_phase r (x ∷ records) = ground (arith, length-insert_by_phase r records)

length-sort_by_phase :
    (records : List MigrationStateRecord) → length (sort_by_phase records) ≡ length records
unfolding sort_by_phase
length-sort_by_phase [] = refl
length-sort_by_phase (r ∷ records) =
    omega (arith, length-insert_by_phase r (sort_by_phase records), length-sort_by_phase records)

-- An accepted group has as many records as phases up to the latest one; in the order of their
-- phases they are one of each phase from the first on, and all of them agree with the latest on the
-- identities and the names.
pub check_group-IsRun :
    (records : List MigrationStateRecord) (latest : MigrationStateRecord)
    → check_group records ≡ ok latest
    → All (Agrees latest) (sort_by_phase records)
      × (length records ≡ phase_number latest.phase + 1)
      × HasPhases 0 (sort_by_phase records)
unfolding check_group
check_group-IsRun records latest h =
    let (all, number, phases) = check_sorted-IsRun (sort_by_phase records) latest h in
    (all, sym (length-sort_by_phase records) ∙ number, phases)

abbrev pub IsUnfinished : MigrationStateRecord → Type 0
IsUnfinished r = phase_eq r.phase done ≡ false

unfinished-All :
    (groups : Groups) (pending all : List MigrationStateRecord)
    → All IsUnfinished pending
    → unfinished groups pending ≡ ok all
    → All IsUnfinished all
unfolding unfinished
unfinished-All [] pending all h e = subst (All IsUnfinished) (ground arith) h
unfinished-All ((id, records) ∷ groups) pending all h e =
    elim (Result-cases (check_group records)) [
      | inr (x, bad) ↦ ground (arith, bad)
      | inl (latest, good) ↦ elim (Bool-cases (phase_eq latest.phase done)) [
        | inl complete ↦ unfinished-All groups pending all h (ground (arith, good, complete))
        | inr open_still ↦
            unfinished-All groups (pending ++ latest ∷ []) all
              (All-append IsUnfinished pending (latest ∷ []) h (open_still, tt))
              (ground (arith, good, open_still))
      ]
    ]

choose_pending-IsUnfinished :
    (pending : List MigrationStateRecord) (r : MigrationStateRecord)
    → All IsUnfinished pending
    → choose_pending pending ≡ ok (some r)
    → IsUnfinished r
unfolding choose_pending
choose_pending-IsUnfinished [] r h e = ground arith
choose_pending-IsUnfinished (q ∷ []) r h e = ground arith
choose_pending-IsUnfinished (q ∷ p ∷ rest) r h e = ground arith

abbrev pub IsUnfinishedIfAny : Option MigrationStateRecord → Type 0
IsUnfinishedIfAny none = Unit {0}
IsUnfinishedIfAny (some r) = IsUnfinished r

choose_pending-any :
    (pending : List MigrationStateRecord) (o : Option MigrationStateRecord)
    → All IsUnfinished pending
    → choose_pending pending ≡ ok o
    → IsUnfinishedIfAny o
choose_pending-any pending none h e = tt
choose_pending-any pending (some r) h e = choose_pending-IsUnfinished pending r h e

-- A migration that is loaded for resumption is not done.
pub load_pending_from_bootstrap-IsUnfinished :
    {S : Type 0}
    → (C : Calls S) (s : S) (r : MigrationStateRecord)
    → (load_pending_from_bootstrap C s).0 ≡ ok (some r)
    → IsUnfinished r
unfolding load_pending_from_bootstrap
load_pending_from_bootstrap-IsUnfinished C s r e =
    (Gives-bind IsUnfinishedIfAny (with_error storage C.entries) _ (λ names _ _.
        Gives-bind _ (load_groups C names []) _ (λ groups _ _.
          Gives-bind _ (lift (unfinished groups [])) _ (λ pending _ collected. record {
            holds = λ u o h.
                choose_pending-any pending o (unfinished-All groups [] pending tt collected) h;
          })))).holds
      s (some r) e
