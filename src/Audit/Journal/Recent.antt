-- ===== src/Audit/Journal/Recent.antt =====
-- The buffer of recent entries: it holds the last entries of the history, newest last.
use win_profile.Base.{
  ℕ, zero, suc, ◌+◌, ◌-◌, ◌≤◌, ◌≡◌, refl, sym, ap, ◌∙◌, false, List, [], ◌∷◌, ◌++◌, append-nil,
  append_assoc, Result, ok, err, Text, trim, is_empty, length, length-append, reverse,
  length-reverse, drop, take, leb, if◌then◌else◌, arith, Bool-cases, inl, inr, Result-cases,
}
use win_profile.Audit.Event.{AuditEntry, Event}
use win_profile.Audit.Journal.{
  AuditLogger, Memory, Storage, pop_front, push_recent, load_lines, remember, log_line, log_encoded,
  log, entry_of, get_entries,
}

-- The last `n` entries of a history.
abbrev pub last_n : ℕ → List AuditEntry → List AuditEntry
last_n n history = drop (length history - n) history

length-drop : (k : ℕ) (xs : List AuditEntry) → length (drop k xs) ≡ length xs - k
length-drop zero xs = omega arith
length-drop (suc k) [] = omega arith
length-drop (suc k) (x ∷ xs) = omega (arith, length-drop k xs)

drop-append :
    (k : ℕ) (xs ys : List AuditEntry) → k ≤ length xs → drop k (xs ++ ys) ≡ (drop k xs ++ ys)
drop-append zero xs ys h = refl
drop-append (suc k) [] ys h = ground arith
drop-append (suc k) (x ∷ xs) ys h = drop-append k xs ys (omega arith)

drop-all : (k : ℕ) (xs : List AuditEntry) → length xs ≤ k → drop k xs ≡ []
drop-all zero [] h = refl
drop-all (suc k) [] h = refl
drop-all zero (x ∷ xs) h = ground arith
drop-all (suc k) (x ∷ xs) h = drop-all k xs (omega arith)

pop_front-drop : (k : ℕ) (xs : List AuditEntry) → pop_front (drop k xs) ≡ drop (suc k) xs
unfolding pop_front
pop_front-drop zero [] = refl
pop_front-drop zero (x ∷ xs) = refl
pop_front-drop (suc k) [] = refl
pop_front-drop (suc k) (x ∷ xs) = pop_front-drop k xs

-- Pushing an entry onto the last entries of a history gives those of the longer history.
push_recent-last_n :
    (n : ℕ) (history : List AuditEntry) (e : AuditEntry)
    → push_recent n (last_n n history) e ≡ last_n n (history ++ e ∷ [])
unfolding push_recent
push_recent-last_n n history e = ground (
  arith,
  length-drop (length history - n) history,
  length-append history (e ∷ []),
  drop-append (length history - n) history (e ∷ []),
  drop-append (suc (length history - n)) history (e ∷ []),
  drop-all (length history) history,
  drop-all (length history + 1) (history ++ e ∷ []),
  pop_front-drop (length history - n) history,
)

module _ {S : Type 0} (T : Storage S) where
  -- The entries of the lines that are not blank.
  unfoldable pub entries_of : List (Result Text Text) → List AuditEntry
  unfolding trim
  entries_of [] = []
  entries_of (err e ∷ lines) = entries_of lines
  entries_of (ok line ∷ lines) =
      let rest = entries_of lines in
      if is_empty (trim line)
      then rest
      else (elim (T.from_json line) [ err e ↦ rest | ok e ↦ e ∷ rest ])

  -- Loading keeps the last `n` entries of what was there before and of the lines.
  pub load_lines-last_n :
      (n index : ℕ) (history : List AuditEntry) (lines : List (Result Text Text))
      (es : List AuditEntry)
      → load_lines T n index (last_n n history) lines ≡ ok es
      → es ≡ last_n n (history ++ entries_of lines)
  unfolding load_lines entries_of
  load_lines-last_n n index history [] es h = ground (arith, append-nil history)
  load_lines-last_n n index history (err e ∷ lines) es h = ground arith
  load_lines-last_n n index history (ok line ∷ lines) es h =
      elim (Result-cases (T.from_json line)) [
        | inl (e, read) ↦ ground (
          arith,
          read,
          push_recent-last_n n history e,
          append_assoc history (e ∷ []) (entries_of lines),
          load_lines-last_n n (index + 1) history lines es,
          load_lines-last_n n (index + 1) (history ++ e ∷ []) lines es,
        )
        | inr (reason, bad) ↦ ground (arith, bad, load_lines-last_n n (index + 1) history lines es)
      ]

  -- `log` adds its entry to the history if it returns without an error, and nothing otherwise; the
  -- buffer holds the last entries of the history in both cases.
  pub log-last_n :
      (logger : AuditLogger) (e : Event) (s : S) (memory : Memory) (history : List AuditEntry)
      → memory.entries ≡ last_n logger.max_memory_entries history
      → let (r, (t, after)) = log T logger e (s, memory) in
        after.entries
        ≡ last_n logger.max_memory_entries
            (history ++ (elim r [ ok _ ↦ entry_of e (T.now s) ∷ [] | err _ ↦ [] ]))
  unfolding log log_encoded log_line remember
  log-last_n logger e s memory history h = ground (
    arith,
    append-nil history,
    push_recent-last_n logger.max_memory_entries history (entry_of e (T.now s)),
  )

take-append : (xs ys : List AuditEntry) → take (length xs) (xs ++ ys) ≡ xs
take-append [] ys = refl
take-append (x ∷ xs) ys = ap (λ zs. x ∷ zs) (take-append xs ys)

take-all : (n : ℕ) (xs : List AuditEntry) → length xs ≤ n → take n xs ≡ xs
take-all zero [] h = refl
take-all zero (x ∷ xs) h = ground arith
take-all (suc n) [] h = refl
take-all (suc n) (x ∷ xs) h = ap (λ zs. x ∷ zs) (take-all n xs (omega arith))

-- The reverse of a list ends in the reverse of what was dropped.
reverse-drop :
    (k : ℕ) (xs : List AuditEntry)
    → (rest : List AuditEntry) × (reverse xs ≡ (reverse (drop k xs) ++ rest))
reverse-drop zero xs = ([], sym (append-nil (reverse xs)))
reverse-drop (suc k) [] = ([], refl)
reverse-drop (suc k) (x ∷ xs) =
    let (rest, e) = reverse-drop k xs in
    (rest ++ x ∷ [], ap (λ zs. zs ++ x ∷ []) e ∙ append_assoc (reverse (drop k xs)) rest (x ∷ []))

reverse-last_n :
    (n : ℕ) (history : List AuditEntry) → reverse (last_n n history) ≡ take n (reverse history)
reverse-last_n n history = elim (Bool-cases (leb (length history) n)) [
  | inl short ↦
      let all : length history - n ≡ 0 = ground arith in
      let fits = take-all n (reverse history) (ground (arith, length-reverse history)) in
      rw all (sym fits)
  | inr long ↦
      let (rest, e) = reverse-drop (length history - n) history in
      let size : length (reverse (last_n n history)) ≡ n =
        ground
          (arith, length-reverse (last_n n history), length-drop (length history - n) history) in
      sym (
        ap (take n) e
        ∙ (ap (λ m. take m (reverse (last_n n history) ++ rest)) (sym size)
            ∙ take-append (reverse (last_n n history)) rest))
]

-- The entries shown are the newest ones of the history, newest first.
pub get_entries-last_n :
    (n : ℕ) (history : List AuditEntry) (memory : Memory)
    → memory.entries ≡ last_n n history
    → memory.poisoned ≡ false
    → get_entries memory ≡ ok (take n (reverse history))
unfolding get_entries
get_entries-last_n n history memory held sound = ground (arith, reverse-last_n n history)
