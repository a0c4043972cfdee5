-- ===== src/Observation/Framing.antt =====
-- `SseObserver::push` of src/observation.rs: how the relayed bytes become events.
use open_proxy.Common.{
  ℕ, ◌+◌, ◌≤◌, ◌<◌, ◌≡◌, ◌≢◌, refl, ap, ◌∙◌, Bool, true, false, Bool-cases, inl, inr, Option, List,
  [], ◌∷◌, ◌++◌, append-nil, append_assoc, length, length-append, nat_beq, ltb, arith,
}
use open_proxy.Observation.Json.{Value}
use open_proxy.Observation.State.{ObservationState}
use open_proxy.Observation.Sse.{
  SseObserver, max_event_bytes, newline, carriage_return, data_prefix, strip_prefix, drop_cr,
  observe_event, classify_event, append_data, data_line, discard, finish_line, finish_kept_line,
  finish_discarded_line, skip_byte, push_byte, push,
}
use open_proxy.Observation.Lines.{
  keeping, idle, dropping, cr_of, line_of, event_bytes, OneLine, drop_cr-line_of, length-line_of,
  OneLine-cr_of, OneLine-line_of, Carries, length-Carries, strip_space-Carries,
}

module _ (parse : List ℕ → Option Value) where
  pub push-append :
      (o : SseObserver) (xs ys : List ℕ) → push parse o (xs ++ ys) ≡ push parse (push parse o xs) ys
  unfolding push
  push-append o [] ys = refl
  push-append o (x ∷ xs) ys = push-append (push_byte parse o x) xs ys

  push_byte-keeping :
      (s : ObservationState) (n b : ℕ) (d l : List ℕ)
      → b ≢ newline
      → length d + length l < max_event_bytes
      → push_byte parse (keeping s n d l) b ≡ keeping s n d (l ++ b ∷ [])
  unfolding push_byte
  push_byte-keeping s n b d l ne le = elim (Bool-cases (nat_beq b newline)) [
    | inl e ↦ absurd (ne (ground arith))
    | inr e ↦ elim (Bool-cases (nat_beq (length d + length l) max_event_bytes)) [
      | inl f ↦ absurd (ground arith)
      | inr f ↦ rw (e, f)
    ]
  ]

  -- A line that fits is kept as it comes.
  push-keeping :
      (s : ObservationState) (n : ℕ) (d l xs : List ℕ)
      → OneLine xs
      → (length d + length l) + length xs ≤ max_event_bytes
      → push parse (keeping s n d l) xs ≡ keeping s n d (l ++ xs)
  unfolding push
  push-keeping s n d l [] one le = rw (append-nil l)
  push-keeping s n d l (x ∷ xs) one le = rw (push_byte-keeping s n x d l one.0 (omega arith)) (
      push-keeping s n d (l ++ x ∷ []) xs one.1 (omega (arith, length-append l (x ∷ [])))
      ∙ ap (keeping s n d) (append_assoc l (x ∷ []) xs))

  push-newline :
      (o : SseObserver) (xs : List ℕ)
      → push parse o (newline ∷ xs) ≡ push parse (finish_line parse o) xs
  unfolding push push_byte
  push-newline o xs = refl

  append_data-first :
      (s : ObservationState) (n : ℕ) (l payload : List ℕ)
      → length payload ≤ max_event_bytes
      → append_data parse (keeping s n [] l) payload ≡ keeping s n payload []
  unfolding append_data
  append_data-first s n l payload le =
      elim (Bool-cases (ltb max_event_bytes (length payload + 0))) [
        | inl e ↦ absurd (ground arith)
        | inr e ↦ rw e
      ]

  -- What the line that ends holds, behind `data:`.
  finish_line-data :
      (s : ObservationState) (n : ℕ) (line text payload : List ℕ)
      → drop_cr line ≡ data_prefix ++ text
      → Carries text payload
      → length payload ≤ max_event_bytes
      → finish_line parse (keeping s n [] line) ≡ keeping s n payload []
  unfolding finish_line finish_kept_line data_line strip_prefix
  finish_line-data s n line text payload e c le =
      rw (e, strip_space-Carries text payload c)
        (append_data-first s n (data_prefix ++ text) payload le)

  -- A blank line hands the data over.
  finish_line-blank :
      (s : ObservationState) (n : ℕ) (crlf : Bool) (d : List ℕ)
      → finish_line parse (keeping s n d (cr_of crlf))
        ≡ (let (s', n') = observe_event parse s n d in idle s' n')
  unfolding finish_line finish_kept_line classify_event drop_cr
  finish_line-blank s n true d = refl
  finish_line-blank s n false d = refl

  push_byte-dropping :
      (s : ObservationState) (n x : ℕ) (c : Bool)
      → x ≢ newline
      → (c' : Bool) × (push_byte parse (dropping s n true c) x ≡ dropping s n true c')
  unfolding push_byte skip_byte
  push_byte-dropping s n x c ne = elim (Bool-cases (nat_beq x newline)) [
    | inl e ↦ absurd (ne (ground arith))
    | inr e ↦ elim (Bool-cases (nat_beq x carriage_return)) [
      | inl f ↦ (true, rw (e, f))
      | inr f ↦ (false, rw (e, f))
    ]
  ]

  -- Once the observer drops an event, the rest of the line goes with it.
  push-dropping :
      (s : ObservationState) (n : ℕ) (c : Bool) (xs : List ℕ)
      → OneLine xs
      → (c' : Bool) × (push parse (dropping s n true c) xs ≡ dropping s n true c')
  unfolding push
  push-dropping s n c [] one = (c, refl)
  push-dropping s n c (x ∷ xs) one =
      let (c', e) = push_byte-dropping s n x c one.0 in
      let (c'', f) = push-dropping s n c' xs one.1 in (c'', rw e f)

  push_byte-full :
      (s : ObservationState) (n x : ℕ) (d l : List ℕ)
      → x ≢ newline
      → length d + length l ≡ max_event_bytes
      → push_byte parse (keeping s n d l) x ≡ dropping s n true false
  unfolding push_byte discard
  push_byte-full s n x d l ne full = elim (Bool-cases (nat_beq x newline)) [
    | inl e ↦ absurd (ne (ground arith))
    | inr e ↦ elim (Bool-cases (nat_beq (length d + length l) max_event_bytes)) [
      | inl f ↦ rw (e, f)
      | inr f ↦ absurd (ground arith)
    ]
  ]

  -- A line that does not fit makes the observer drop it and the event.
  push-overflow :
      (s : ObservationState) (n : ℕ) (d l xs : List ℕ)
      → OneLine xs
      → length d + length l ≤ max_event_bytes
      → max_event_bytes < (length d + length l) + length xs
      → (c : Bool) × (push parse (keeping s n d l) xs ≡ dropping s n true c)
  unfolding push
  push-overflow s n d l [] one le lt = absurd (omega arith)
  push-overflow s n d l (x ∷ xs) one le lt =
      elim (Bool-cases (ltb (length d + length l) max_event_bytes)) [
        | inl e ↦
            let h = length-append l (x ∷ []) in
            let (c, f) = push-overflow s n d (l ++ x ∷ []) xs one.1 (ground arith) (omega arith) in
            (c, rw (push_byte-keeping s n x d l one.0 (ground arith)) f)
        | inr e ↦
            let (c, f) = push-dropping s n false xs one.1 in
            (c, rw (push_byte-full s n x d l one.0 (ground arith)) f)
      ]

  -- The blank line behind a dropped event, and no other, ends the dropping.
  push-blank_dropping :
      (s : ObservationState) (n : ℕ) (crlf : Bool)
      → push parse (dropping s n false false) (cr_of crlf ++ newline ∷ []) ≡ idle s n
  unfolding push push_byte skip_byte finish_line finish_discarded_line
  push-blank_dropping s n true = refl
  push-blank_dropping s n false = refl

  push-blank_keeping :
      (s : ObservationState) (n : ℕ) (crlf : Bool) (d : List ℕ)
      → length d < max_event_bytes
      → push parse (keeping s n d []) (cr_of crlf ++ newline ∷ [])
        ≡ (let (s', n') = observe_event parse s n d in idle s' n')
  unfolding push
  push-blank_keeping s n crlf d le =
      push-append (keeping s n d []) (cr_of crlf) (newline ∷ [])
      ∙ (ap (λ o. push parse o (newline ∷ []))
            (push-keeping s n d [] (cr_of crlf) (OneLine-cr_of crlf) (ground arith))
          ∙ (push-newline (keeping s n d (cr_of crlf)) [] ∙ finish_line-blank s n crlf d))

  -- An event that is one `data:` line, of 1 MiB at most, reaches the parser whole: its text but for
  -- one space in front of it, if there is one, whether the lines end in LF or CRLF. The observer is
  -- idle again behind it. A text is a line that does not end in CR.
  pub push-event :
      (s : ObservationState) (n : ℕ) (crlf : Bool) (text payload : List ℕ)
      → OneLine text
      → drop_cr text ≡ text
      → Carries text payload
      → length (line_of crlf text) ≤ max_event_bytes
      → push parse (idle s n) (event_bytes crlf text)
        ≡ (let (s', n') = observe_event parse s n payload in idle s' n')
  push-event s n crlf text payload one e c le =
      let fits = length-line_of crlf text in
      let small = length-Carries text payload c in
      push-append (idle s n) (line_of crlf text) (newline ∷ (cr_of crlf ++ newline ∷ []))
      ∙ (ap (λ o. push parse o (newline ∷ (cr_of crlf ++ newline ∷ [])))
            (push-keeping s n [] [] (line_of crlf text) (OneLine-line_of crlf text one)
              (omega arith))
          ∙ (push-newline (keeping s n [] (line_of crlf text)) (cr_of crlf ++ newline ∷ [])
              ∙ (ap (λ o. push parse o (cr_of crlf ++ newline ∷ []))
                    (finish_line-data s n (line_of crlf text) text payload
                      (drop_cr-line_of crlf text e) c (omega (arith, fits, small)))
                  ∙ push-blank_keeping s n crlf payload (omega (arith, fits, small)))))

  -- An event whose `data:` line outgrows 1 MiB changes nothing of what is observed, and the observer
  -- is idle again behind the blank line that ends it.
  pub push-oversized :
      (s : ObservationState) (n : ℕ) (crlf : Bool) (text : List ℕ)
      → OneLine text
      → max_event_bytes < length (line_of crlf text)
      → push parse (idle s n) (event_bytes crlf text) ≡ idle s n
  unfolding finish_line finish_discarded_line push
  push-oversized s n crlf text one lt =
      let (c, f) =
        push-overflow s n [] [] (line_of crlf text) (OneLine-line_of crlf text one) (omega arith)
          (omega arith) in
      push-append (idle s n) (line_of crlf text) (newline ∷ (cr_of crlf ++ newline ∷ []))
      ∙ (ap (λ o. push parse o (newline ∷ (cr_of crlf ++ newline ∷ []))) f
          ∙ (push-newline (dropping s n true c) (cr_of crlf ++ newline ∷ [])
              ∙ push-blank_dropping s n crlf))
