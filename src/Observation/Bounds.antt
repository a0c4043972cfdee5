-- ===== src/Observation/Bounds.antt =====
-- What src/observation.rs keeps of a response is bounded.
use open_proxy.Common.{
  by_option, ℕ, ◌+◌, ◌≤◌, ◌<◌, ◌≡◌, refl, inl, inr, Bool, true, false, Bool-cases, List, [], ◌∷◌,
  All, length, contains, ltb, nat_eq, ◌==◌, arith,
}
use open_proxy.Observation.Json.{Value, as_object, as_array, get}
use open_proxy.Observation.Seen.{Seen, absent, FinishReason}
use open_proxy.Observation.State.{
  ObservationState, max_indexed, finish_for, remember_tool_pair, stream_tool_call,
  stream_tool_calls, stream_delta, stream_choice, stream_choices, observe_stream, Listed, missing,
  malformed, listed, index_of, remember_index, remember_indexes, remember_choice_indexes,
}
use open_proxy.Observation.Tables.{upsert, keys, pair_eq}

-- The choices' indexes ascend, as a `BTreeMap`'s keys do.
abbrev pub Ascending : List ℕ → Type 0
Ascending [] = Unit
Ascending (k ∷ ks) = All (λ j. k < j) ks × Ascending ks

abbrev pub Bounded : ObservationState → Type 0
Bounded s =
    Ascending (keys s.finishes)
    × (length s.finishes ≤ max_indexed)
    × (length s.tool_pairs ≤ max_indexed)

above_weaken : (i k : ℕ) (ks : List ℕ) → i < k → All (λ j. k < j) ks → All (λ j. i < j) ks
above_weaken i k [] l a = tt
above_weaken i k (j ∷ ks) l a = (omega arith, above_weaken i k ks l a.1)

above_absent : (k : ℕ) (ks : List ℕ) → All (λ j. k < j) ks → contains ks k ≡ false
unfolding contains
above_absent k [] a = refl
above_absent k (j ∷ ks) a = ground (arith, above_absent k ks a.1)

module _ {ℓ} {V : Type ℓ} where
  above_upsert :
      (i k : ℕ) (d : V) (f : V → V) (m : List (ℕ × V))
      → i < k
      → All (λ j. i < j) (keys m)
      → All (λ j. i < j) (keys (upsert k d f m))
  unfolding upsert
  above_upsert i k d f [] l a = (l, tt)
  above_upsert i k d f ((j, v) ∷ m) l a = let rest = above_upsert i k d f m l a.1 in ground arith

  upsert-Ascending :
      (k : ℕ) (d : V) (f : V → V) (m : List (ℕ × V))
      → Ascending (keys m)
      → Ascending (keys (upsert k d f m))
  unfolding upsert
  upsert-Ascending k d f [] a = (tt, tt)
  upsert-Ascending k d f ((j, v) ∷ m) a = elim (Bool-cases (j == k)) [
    | inl e ↦ rw e a
    | inr e ↦ elim (Bool-cases (ltb k j)) [
      | inl l ↦ rw (e, l) ((ground arith, above_weaken k j (keys m) (ground arith) a.0), a)
      | inr l ↦ rw (e, l) (above_upsert j k d f m (ground arith) a.0, upsert-Ascending k d f m a.1)
    ]
  ]

  length-upsert_present :
      (k : ℕ) (d : V) (f : V → V) (m : List (ℕ × V))
      → Ascending (keys m)
      → contains (keys m) k ≡ true
      → length (upsert k d f m) ≡ length m
  unfolding upsert contains
  length-upsert_present k d f [] a c = absurd (ground arith)
  length-upsert_present k d f ((j, v) ∷ m) a c =
      let rest = length-upsert_present k d f m a.1 in
      ground (arith, λ (l : k < j). above_absent k (keys m) (above_weaken k j (keys m) l a.0))

  length-upsert_le :
      (k : ℕ) (d : V) (f : V → V) (m : List (ℕ × V)) → length (upsert k d f m) ≤ length m + 1
  unfolding upsert
  length-upsert_le k d f [] = omega arith
  length-upsert_le k d f ((j, v) ∷ m) = let rest = length-upsert_le k d f m in ground arith

finish_for-Bounded :
    (i : ℕ) (f : Seen FinishReason → Seen FinishReason) (s : ObservationState)
    → Bounded s
    → Bounded (finish_for i f s)
unfolding finish_for
finish_for-Bounded i f s (a, l, t) =
    let asc = upsert-Ascending i absent f s.finishes a in
    let le = length-upsert_le i absent f s.finishes in
    let same = length-upsert_present i absent f s.finishes a in ground arith

remember_tool_pair-Bounded :
    (p : ℕ × ℕ) (s : ObservationState) → Bounded s → Bounded (remember_tool_pair p s)
unfolding remember_tool_pair
remember_tool_pair-Bounded p s (a, l, t) = ground arith

stream_tool_call-Bounded :
    (i : ℕ) (s : ObservationState) (v : Value) → Bounded s → Bounded (stream_tool_call i s v)
unfolding stream_tool_call
stream_tool_call-Bounded i s v b =
    by_option Bounded (as_object v) b
      (λ fs. by_option Bounded (index_of fs) b (λ j. remember_tool_pair-Bounded (i, j) s b))

stream_tool_calls-Bounded :
    (i : ℕ) (s : ObservationState) (vs : List Value)
    → Bounded s
    → Bounded (stream_tool_calls i s vs)
unfolding stream_tool_calls
stream_tool_calls-Bounded i s [] b = b
stream_tool_calls-Bounded i s (v ∷ vs) b =
    stream_tool_calls-Bounded i (stream_tool_call i s v) vs (stream_tool_call-Bounded i s v b)

stream_delta-Bounded :
    (i : ℕ) (s : ObservationState) (l : Listed) → Bounded s → Bounded (stream_delta i s l)
unfolding stream_delta
stream_delta-Bounded i s missing b = b
stream_delta-Bounded i s malformed b = b
stream_delta-Bounded i s (listed vs) b = stream_tool_calls-Bounded i s vs b

abbrev BoundedFirst : ObservationState × Bool → Type 0
BoundedFirst r = Bounded r.0

stream_choice-Bounded :
    (s : ObservationState) (c : Bool) (v : Value) → Bounded s → BoundedFirst (stream_choice s c v)
unfolding stream_choice
stream_choice-Bounded s c v b = by_option BoundedFirst (as_object v) b (λ fs.
    by_option BoundedFirst (index_of fs) b
      (λ i. stream_delta-Bounded i _ _ (finish_for-Bounded i _ s b)))

stream_choices-Bounded :
    (s : ObservationState) (c : Bool) (vs : List Value)
    → Bounded s
    → BoundedFirst (stream_choices s c vs)
unfolding stream_choices
stream_choices-Bounded s c [] b = b
stream_choices-Bounded s c (v ∷ vs) b =
    stream_choices-Bounded (stream_choice s c v).0 (stream_choice s c v).1 vs
      (stream_choice-Bounded s c v b)

-- An event keeps the state of a response bounded: the choices' indexes ascend, and neither they nor
-- the pairs of tool indexes number more than 128.
pub observe_stream-Bounded :
    (s : ObservationState) (v : Value) → Bounded s → Bounded (observe_stream s v).0
unfolding observe_stream
observe_stream-Bounded s v b =
    by_option BoundedFirst (get "choices" v) b
      (λ c. by_option BoundedFirst (as_array c) b (λ vs. stream_choices-Bounded _ _ vs b))

remember_index-Bounded :
    (s : ObservationState) (v : Value) → Bounded s → Bounded (remember_index s v)
unfolding remember_index
remember_index-Bounded s v b =
    by_option Bounded (as_object v) b
      (λ fs. by_option Bounded (index_of fs) b (λ i. finish_for-Bounded i _ s b))

remember_indexes-Bounded :
    (s : ObservationState) (vs : List Value) → Bounded s → Bounded (remember_indexes s vs)
unfolding remember_indexes
remember_indexes-Bounded s [] b = b
remember_indexes-Bounded s (v ∷ vs) b =
    remember_indexes-Bounded (remember_index s v) vs (remember_index-Bounded s v b)

pub remember_choice_indexes-Bounded :
    (s : ObservationState) (v : Value) → Bounded s → Bounded (remember_choice_indexes s v)
unfolding remember_choice_indexes
remember_choice_indexes-Bounded s v b =
    by_option Bounded (get "choices" v) b
      (λ c. by_option Bounded (as_array c) b (λ vs. remember_indexes-Bounded s vs b))
