-- ===== src/Migration/Transaction/Undo.antt =====
-- The rollback of a migration: every created entry is removed, the newest first.
use win_profile.Base.{
  suc, ◌≡◌, refl, ap, subst, List, [], ◌∷◌, ◌++◌, reverse, reverse-reverse, length-reverse, Option,
  none, some, Program, length,
}
use win_profile.Migration.Transaction.{
  CopyTransaction, pop, first_of, outcome, rollback_loop, rollback,
}

module _ {S E X : Type 0} (remove : E → Program S X (Unit {0})) where
  -- The entries removed one after the other, whatever each removal gives, and the first error.
  abbrev pub removed : List E → Option X → S → Option X × S
  removed [] first s = (first, s)
  removed (e ∷ es) first s = let (r, t) = remove e s in removed es (first_of first r) t

  pub pop-last : (es : List E) (e : E) → pop (es ++ e ∷ []) ≡ some (es, e)
  unfolding pop
  pop-last [] e = refl
  pop-last (x ∷ es) e = rw (pop-last es e)

  rollback_loop-removed :
      (ds : List E) (first : Option X) (s : S)
      → rollback_loop remove (suc (length ds)) (reverse ds) first s
        ≡ some (([], (removed ds first s).0), (removed ds first s).1)
  unfolding rollback_loop
  rollback_loop-removed [] first s = unfold pop in refl
  rollback_loop-removed (d ∷ ds) first s =
      rw (rollback_loop, pop-last (reverse ds) d)
        (rollback_loop-removed ds (first_of first (remove d s).0) (remove d s).1)

  -- A rollback ends, removes every created entry, the newest first, whatever each removal gives,
  -- and reports the first error that came up.
  pub rollback-removed :
      (t : CopyTransaction E) (s : S)
      → rollback remove t s
        ≡ some (
          (
            outcome (removed (reverse t.created_entries) none s).0,
            record t { created_entries = [] },
          ),
          (removed (reverse t.created_entries) none s).1,
        )
  unfolding rollback
  rollback-removed t s =
      let es = t.created_entries in
      let same : suc (length (reverse es)) ≡ suc (length es) = ap suc (length-reverse es) in
      let loop : rollback_loop remove (suc (length es)) es none s
          ≡ some (([], (removed (reverse es) none s).0), (removed (reverse es) none s).1) =
        subst
          (λ k.
            rollback_loop remove k es none s
            ≡ some (([], (removed (reverse es) none s).0), (removed (reverse es) none s).1))
          same
          (subst
            (λ xs.
              rollback_loop remove (suc (length (reverse es))) xs none s
              ≡ some (([], (removed (reverse es) none s).0), (removed (reverse es) none s).1))
            (reverse-reverse es) (rollback_loop-removed (reverse es) none s)) in
      rw (rollback, loop)
