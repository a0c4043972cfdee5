-- ===== src/History/Outcome.antt =====
-- src/history/store.rs: what appends leave of the store, whatever the file system answers.
use open_proxy.Common.{
  ℕ, ◌≤◌, ◌⊎◌, ◌≡◌, refl, sym, ap, ◌∙◌, subst, Bool, true, false, Option, none, some, List, [], ◌∷◌,
  ◌++◌, take, append-nil, append_assoc, arith, by_test, inl, inr, Result, Result-cases, ok, err,
}
use open_proxy.History.Records.{Capacity, StateEntry, Record}
use open_proxy.History.Codec.{EncodeError}
use open_proxy.History.Scanner.{regresses}
use open_proxy.History.Writing.{
  WriteError, HistoryStore, Fault, record_bytes, write_records, append_bytes, note_append,
  is_last_state, checkpoint_inner, append_sample_inner,
}

abbrev NotBefore : Option ℕ → Option ℕ → Type 0
NotBefore none new = Unit
NotBefore (some t) none = ⊥
NotBefore (some t) (some u) = t ≤ u

NotBefore-refl : (t : Option ℕ) → NotBefore t t
NotBefore-refl none = tt
NotBefore-refl (some t) = omega arith

NotBefore-trans : (t u v : Option ℕ) → NotBefore t u → NotBefore u v → NotBefore t v
NotBefore-trans none u v p q = tt
NotBefore-trans (some t) none v p q = absurd p
NotBefore-trans (some t) (some u) none p q = absurd q
NotBefore-trans (some t) (some u) (some v) p q = omega arith

NotBefore-some : (t : ℕ) (last : Option ℕ) → regresses t last ≡ false → NotBefore last (some t)
NotBefore-some t none e = tt
NotBefore-some t (some u) e = ground arith

pub data Call (F : Type 0) : Type 0 where
  take_sample : Option Fault → ℕ → Capacity → List (StateEntry F) → Call F
  take_checkpoint : Option Fault → ℕ → Capacity → Call F

module _ {F : Type 0} where
  frozen_trans :
      (a b c : HistoryStore F)
      → (a.poisoned ≡ false) ⊎ (b ≡ a)
      → (b.poisoned ≡ false) ⊎ (c ≡ b)
      → (a.poisoned ≡ false) ⊎ (c ≡ a)
  frozen_trans a b c (inl fresh) still = inl fresh
  frozen_trans a b c (inr same) (inl fresh) = inl (subst (λ x. x.poisoned ≡ false) same fresh)
  frozen_trans a b c (inr same) (inr still) = inr (still ∙ same)

  module _ (encode : Record F → Result EncodeError (List ℕ)) where
    -- The bytes of whole records, each with its newline.
    abbrev pub Whole : List ℕ → Type 0
    Whole bytes = (rs : List (Record F)) × (write_records encode rs ≡ ok bytes)

    -- Appends leave the bytes that were there and add whole records, unless they leave the store
    -- poisoned; they keep the order of time and the boot; and a poisoned store stays as it was.
    abbrev pub Appends : HistoryStore F → HistoryStore F → Type 0
    Appends store left =
        ((suffix : List ℕ) × (left.file ≡ store.file ++ suffix)
          × ((left.poisoned ≡ true) ⊎ Whole suffix))
        × NotBefore store.last_timestamp left.last_timestamp
        × (left.boot_id ≡ store.boot_id)
        × ((store.poisoned ≡ false) ⊎ (left ≡ store))

    abbrev Leaves : HistoryStore F → Result WriteError (Unit {0}) × HistoryStore F → Type 0
    Leaves store (answer, left) = Appends store left

    Whole-nil : Whole []
    unfolding write_records
    Whole-nil = ([], refl)

    Whole-record : (r : Record F) (bytes : List ℕ) → record_bytes encode r ≡ ok bytes → Whole bytes
    unfolding write_records
    Whole-record r bytes e = (r ∷ [], rw (write_records, e) (ap (λ xs. ok xs) (append-nil bytes)))

    write_records-append :
        (rs ts : List (Record F)) (xs ys : List ℕ)
        → write_records encode rs ≡ ok xs
        → write_records encode ts ≡ ok ys
        → write_records encode (rs ++ ts) ≡ ok (xs ++ ys)
    unfolding write_records
    write_records-append [] ts xs ys e f = ground arith
    write_records-append (r ∷ rs) ts xs ys e f = elim (Result-cases (record_bytes encode r)) [
      | inl (error, g) ↦ absurd (ground arith)
      | inr (line, g) ↦ elim (Result-cases (write_records encode rs)) [
        | inl (error, h) ↦ absurd (ground arith)
        | inr (rest, h) ↦
            let split : line ++ rest ≡ xs = ground arith in
            rw (write_records, g, write_records-append rs ts rest ys h f)
              (ap (λ zs. ok zs) (sym (append_assoc line rest ys) ∙ ap (λ zs. zs ++ ys) split))
      ]
    ]

    Whole-append : (xs ys : List ℕ) → Whole xs → Whole ys → Whole (xs ++ ys)
    Whole-append xs ys (rs, e) (ts, f) = (rs ++ ts, write_records-append rs ts xs ys e f)

    Appends-refl : (store : HistoryStore F) → Appends store store
    Appends-refl store = (
      ([], sym (append-nil store.file), inr Whole-nil),
      NotBefore-refl store.last_timestamp,
      refl,
      inr refl,
    )

    Whole-trans :
        (b c : HistoryStore F) (s u : List ℕ)
        → (b.poisoned ≡ true) ⊎ Whole s
        → (c.poisoned ≡ true) ⊎ Whole u
        → (b.poisoned ≡ false) ⊎ (c ≡ b)
        → (c.poisoned ≡ true) ⊎ Whole (s ++ u)
    Whole-trans b c s u before (inl bad) still = inl bad
    Whole-trans b c s u (inr w) (inr v) still = inr (Whole-append s u w v)
    Whole-trans b c s u (inl bad) (inr v) (inl fresh) = absurd (cc)
    Whole-trans b c s u (inl bad) (inr v) (inr same) =
        inl (subst (λ x. x.poisoned ≡ true) (sym same) bad)

    Appends-trans : (a b c : HistoryStore F) → Appends a b → Appends b c → Appends a c
    Appends-trans a b c ((s, p, w), t, i, frozen) ((u, q, w'), v, j, still) = (
      (s ++ u, q ∙ ap (λ xs. xs ++ u) p ∙ append_assoc a.file s u, Whole-trans b c s u w w' still),
      NotBefore-trans a.last_timestamp b.last_timestamp c.last_timestamp t v,
      j ∙ i,
      frozen_trans a b c frozen still,
    )

    append_bytes-Leaves :
        (fault : Option Fault) (time : ℕ) (state : Option (List (StateEntry F)))
        (store : HistoryStore F) (bytes : Result WriteError (List ℕ))
        → ((line : List ℕ) → bytes ≡ ok line → Whole line)
        → store.poisoned ≡ false
        → regresses time store.last_timestamp ≡ false
        → Leaves store (note_append time state store (append_bytes fault store.file bytes))
    append_bytes-Leaves fault time state store (err e) whole fresh order = (
      ([], sym (append-nil store.file), inl refl),
      NotBefore-refl store.last_timestamp,
      refl,
      inl fresh,
    )
    append_bytes-Leaves none time state store (ok bytes) whole fresh order = (
      (bytes, refl, inr (whole bytes refl)),
      NotBefore-some time store.last_timestamp order,
      refl,
      inl fresh,
    )
    append_bytes-Leaves (some (n, why)) time state store (ok bytes) whole fresh order =
        ((take n bytes, refl, inl refl), NotBefore-refl store.last_timestamp, refl, inl fresh)

    checkpoint_inner-Leaves :
        (fault : Option Fault) (time : ℕ) (capacity : Capacity) (store : HistoryStore F)
        → Leaves store (checkpoint_inner encode fault time capacity store)
    unfolding checkpoint_inner
    checkpoint_inner-Leaves fault time capacity store =
        by_test (Leaves store) store.poisoned (λ _. Appends-refl store)
          (λ fresh.
            by_test (Leaves store) (regresses time store.last_timestamp) (λ _. Appends-refl store)
              (λ order.
                append_bytes-Leaves fault time store.last_state store _ (Whole-record _) fresh
                  order))

    module _ (f64_eq : F → F → Bool) where
      append_sample_inner-Leaves :
          (fault : Option Fault) (time : ℕ) (capacity : Capacity) (state : List (StateEntry F))
          (store : HistoryStore F)
          → Leaves store (append_sample_inner encode f64_eq fault time capacity state store)
      unfolding append_sample_inner
      append_sample_inner-Leaves fault time capacity state store =
          by_test (Leaves store) store.poisoned (λ _. Appends-refl store)
            (λ fresh.
              by_test (Leaves store) (is_last_state encode f64_eq store.last_state state)
                (λ _. checkpoint_inner-Leaves fault time capacity store)
                (λ _.
                  by_test (Leaves store) (regresses time store.last_timestamp)
                    (λ _. Appends-refl store)
                    (λ order.
                      append_bytes-Leaves fault time (some state) store _ (Whole-record _) fresh
                        order)))

      -- One call of the running store, with what the file system answers.
      unfoldable pub run_call : Call F → HistoryStore F → HistoryStore F
      run_call (take_sample fault time capacity state) store =
          (append_sample_inner encode f64_eq fault time capacity state store).1
      run_call (take_checkpoint fault time capacity) store =
          (checkpoint_inner encode fault time capacity store).1

      unfoldable pub run_calls : List (Call F) → HistoryStore F → HistoryStore F
      run_calls [] store = store
      run_calls (call ∷ calls) store = run_calls calls (run_call call store)

      run_call-Appends :
          (call : Call F) (store : HistoryStore F) → Appends store (run_call call store)
      unfolding run_call
      run_call-Appends (take_sample fault time capacity state) store =
          append_sample_inner-Leaves fault time capacity state store
      run_call-Appends (take_checkpoint fault time capacity) store =
          checkpoint_inner-Leaves fault time capacity store

      -- Whatever is appended, in whatever order, and whichever of the writes fail: the store keeps the
      -- bytes that its file had, and what it adds is the lines of whole records, unless it ends
      -- poisoned; its last timestamp does not go back; it keeps its boot; and a store that is poisoned
      -- at the start does not change.
      pub run_calls-Appends :
          (calls : List (Call F)) (store : HistoryStore F) → Appends store (run_calls calls store)
      unfolding run_calls
      run_calls-Appends [] store = Appends-refl store
      run_calls-Appends (call ∷ calls) store =
          Appends-trans store (run_call call store) (run_calls calls (run_call call store))
            (run_call-Appends call store) (run_calls-Appends calls (run_call call store))
