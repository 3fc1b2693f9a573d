-- ===== src/Migration/Copy/Stable.antt =====
-- What the copy of a file's bytes, and its verification, leave alone.
use win_profile.Base.{
  Bool, true, false, err, if◌then◌else◌, ℕ, not, List, [], ◌++◌, length, Program, Text, text_eq,
  ◌==◌,
}
use win_profile.Base.Hoare.{Maintains, Maintains-bind, Maintains-raise_if}
use win_profile.Profiles.DirectorySize.{saturating_add}
use win_profile.Migration.Errors.{MigrationError, cancelled, verification_failed, io_error}
use win_profile.Migration.Transaction.{CopyTransaction, copied_bytes, observe_copy}
use win_profile.Migration.Copy.{
  Reads, end, failed, chunk, Target, MigrationProgress, on_state, change, report, progress_of,
  copying, verifying, check_cancelled, copy_reads, hash_reads, verify_copy, check_length,
}

module _ {S : Type 0} (T : Target S) (P : S × CopyTransaction T.Created → Type 0) where
  abbrev pub Stays : {E A : Type 0} → Program S E A → Type 0
  Stays m = (s : S) (t : CopyTransaction T.Created) → P (s, t) → P ((m s).1, t)

  -- A property that the calls on an open file, the callbacks and the record of progress keep.
  pub record IsStable : Type 0 where
    pub wrote : (output : T.Output) (bytes : List ℕ) → Stays (T.write_all output bytes)
    pub flushed : (output : T.Output) → Stays (T.flush output)
    pub synced : (output : T.Output) → Stays (T.sync_all output)
    pub sought : (output : T.Output) → Stays (T.seek_start output)
    pub measured : (output : T.Output) → Stays (T.file_length output)
    pub reread :
        (output : T.Output) (s : S) (t : CopyTransaction T.Created)
        → P (s, t)
        → P ((T.read_back output s).1, t)
    pub asked : (s : S) (t : CopyTransaction T.Created) → P (s, t) → P ((T.is_cancelled s).1, t)
    pub progressed :
        (p : MigrationProgress) (s : S) (t : CopyTransaction T.Created)
        → P (s, t)
        → P (T.on_progress p s, t)
    pub observed :
        (path : Text) (bytes : ℕ) (s : S) (t : CopyTransaction T.Created)
        → P (s, t)
        → P (s, observe_copy t path bytes)

  pub Maintains-on_state :
      {E A : Type 0} (f : E → MigrationError) (m : Program S E A)
      → Stays m
      → Maintains P (on_state T f m)
  Maintains-on_state f m h = record { from = λ w p. h w.0 w.1 p }

  module _ (K : IsStable) where
    pub Maintains-check_cancelled : Maintains P (check_cancelled T)
    unfolding check_cancelled
    Maintains-check_cancelled = record {
      from = λ w p.
          (Maintains-raise_if P (T.is_cancelled w.0).0 cancelled).from ((T.is_cancelled w.0).1, w.1)
            (K.asked w.0 w.1 p);
    }

    pub Maintains-report :
        (f : CopyTransaction T.Created → MigrationProgress) → Maintains P (report T f)
    Maintains-report f = record { from = λ w p. K.progressed (f w.1) w.0 w.1 p }

    pub Maintains-copy_reads :
        (output : T.Output) (path : Text) (before : ℕ) (reads : Reads) (copied : ℕ) (seen : List ℕ)
        → Maintains P (copy_reads T output path before reads copied seen)
    unfolding copy_reads
    Maintains-copy_reads output path before end copied seen =
        Maintains-bind P (check_cancelled T) _ Maintains-check_cancelled
          (λ _. record { from = λ w p. p })
    Maintains-copy_reads output path before (failed x) copied seen =
        Maintains-bind P (check_cancelled T) _ Maintains-check_cancelled
          (λ _. record { from = λ w p. p })
    Maintains-copy_reads output path before (chunk bytes reads) copied seen =
        let copied' = saturating_add copied (length bytes) in
        let observed = saturating_add before copied' in
        Maintains-bind P (check_cancelled T) _ Maintains-check_cancelled (λ _.
          Maintains-bind P (on_state T io_error (T.write_all output bytes)) _
            (Maintains-on_state io_error (T.write_all output bytes) (K.wrote output bytes))
            (λ _.
              Maintains-bind P (change T (λ t. observe_copy t path observed)) _
                (record { from = λ w p. K.observed path observed w.0 w.1 p })
                (λ _.
                  Maintains-bind P (report T (progress_of T copying path observed)) _
                    (Maintains-report (progress_of T copying path observed))
                    (λ _. Maintains-copy_reads output path before reads copied' (seen ++ bytes)))))

    Maintains-hash_reads : (reads : Reads) (seen : List ℕ) → Maintains P (hash_reads T reads seen)
    unfolding hash_reads
    Maintains-hash_reads end seen =
        Maintains-bind P (check_cancelled T) _ Maintains-check_cancelled
          (λ _. record { from = λ w p. p })
    Maintains-hash_reads (failed x) seen =
        Maintains-bind P (check_cancelled T) _ Maintains-check_cancelled
          (λ _. record { from = λ w p. p })
    Maintains-hash_reads (chunk bytes reads) seen =
        Maintains-bind P (check_cancelled T) _ Maintains-check_cancelled
          (λ _. Maintains-hash_reads reads (seen ++ bytes))

    Maintains-check_length :
        (output : T.Output) (path : Text) (copied : ℕ)
        → Maintains P (check_length T output path copied)
    unfolding check_length
    Maintains-check_length output path copied =
        Maintains-bind P (on_state T io_error (T.file_length output)) _
          (Maintains-on_state io_error (T.file_length output) (K.measured output))
          (λ len. Maintains-raise_if P (not (copied == len)) (verification_failed path))

    Maintains-compared :
        (output : T.Output) (path : Text) (copied : ℕ) (equal : Bool)
        → Maintains P (
            if equal
            then check_length T output path copied
            else (λ w. (err (verification_failed path), w)))
    Maintains-compared output path copied true = Maintains-check_length output path copied
    Maintains-compared output path copied false = record { from = λ w p. p }

    pub Maintains-verify_copy :
        (output : T.Output) (path : Text) (copied : ℕ) (seen : List ℕ)
        → Maintains P (verify_copy T output path copied seen)
    unfolding verify_copy
    Maintains-verify_copy output path copied seen =
        Maintains-bind P (check_cancelled T) _ Maintains-check_cancelled (λ _.
          Maintains-bind P (on_state T io_error (T.flush output)) _
            (Maintains-on_state io_error (T.flush output) (K.flushed output))
            (λ _.
              Maintains-bind P (on_state T io_error (T.sync_all output)) _
                (Maintains-on_state io_error (T.sync_all output) (K.synced output))
                (λ _.
                  Maintains-bind P (on_state T io_error (T.seek_start output)) _
                    (Maintains-on_state io_error (T.seek_start output) (K.sought output))
                    (λ _.
                      Maintains-bind P
                        (report T (λ t. progress_of T verifying path (copied_bytes t) t)) _
                        (Maintains-report (λ t. progress_of T verifying path (copied_bytes t) t))
                        (λ _.
                          Maintains-bind P
                            (λ w.
                              let (reads, s) = T.read_back output w.0 in
                              hash_reads T reads [] (s, w.1))
                            _
                            (record {
                              from = λ w p.
                                  (Maintains-hash_reads (T.read_back output w.0).0 []).from
                                    ((T.read_back output w.0).1, w.1) (K.reread output w.0 w.1 p);
                            })
                            (λ sha.
                              Maintains-compared output path copied
                                (text_eq (T.hash seen) sha)))))))
