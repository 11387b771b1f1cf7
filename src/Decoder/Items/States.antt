-- ===== src/Decoder/Items/States.antt =====
-- src/decoder.rs: what `add_endpoint_state` records for each endpoint.
use packetry.Base.{
  ℕ, zero, suc, ◌+◌, ◌<◌, ◌≡◌, refl, ap, ◌∙◌, Bool, true, false, List, [], ◌∷◌, ◌++◌, ◌==◌,
  if◌then◌else◌, length, get_or, ok, arith, Bool-cases, inl, inr,
}
use packetry.Decoder.State.{Decoder}
use packetry.Decoder.Items.{
  EndpointState, idle, starting, ongoing, ending, state_byte, state_from, next_state, update_states,
  add_endpoint_state,
}

-- A transfer that started goes on until it ends, and is idle after that.
abbrev pub carried : EndpointState → EndpointState
carried idle = idle
carried starting = ongoing
carried ongoing = ongoing
carried ending = idle

abbrev pub changed : Bool → EndpointState
changed true = starting
changed false = ending

next_state-other : (start : Bool) (s : EndpointState) → next_state false start s ≡ carried s
unfolding next_state
next_state-other start idle = refl
next_state-other start starting = refl
next_state-other start ongoing = refl
next_state-other start ending = refl

next_state-same : (start : Bool) (s : EndpointState) → next_state true start s ≡ changed start
unfolding next_state
next_state-same true s = refl
next_state-same false s = refl

-- The result of the loop, by position.
abbrev Updated : (i endpoint_id : ℕ) → Bool → (states rest : List ℕ) → Type 0
Updated i endpoint_id start states rest =
    (length rest ≡ length states)
    × ((k : ℕ)
        → k < length states
        → get_or rest k 0
          ≡ state_byte (next_state (i + k == endpoint_id) start (state_from (get_or states k 0))))

at_position :
    (i endpoint_id : ℕ) (start : Bool) (s : ℕ) (states rest : List ℕ)
    → ((k : ℕ)
        → k < length states
        → get_or rest k 0
          ≡ state_byte
              (next_state (i + 1 + k == endpoint_id) start (state_from (get_or states k 0))))
    → (k : ℕ) → k < suc (length states)
    → get_or (state_byte (next_state (i == endpoint_id) start (state_from s)) ∷ rest) k 0
      ≡ state_byte (next_state (i + k == endpoint_id) start (state_from (get_or (s ∷ states) k 0)))
at_position i endpoint_id start s states rest f zero h =
    ap (λ n. state_byte (next_state (n == endpoint_id) start (state_from s))) (omega arith)
at_position i endpoint_id start s states rest f (suc k) h =
    f k (omega arith)
    ∙ ap (λ n. state_byte (next_state (n == endpoint_id) start (state_from (get_or states k 0))))
        (omega arith)

update_states-Updated :
    (i endpoint_id : ℕ) (start : Bool) (states : List ℕ)
    → (rest : List ℕ) × (update_states (length states) i endpoint_id start states ≡ ok rest)
      × Updated i endpoint_id start states rest
unfolding update_states
update_states-Updated i endpoint_id start [] = ([], refl, (refl, λ k h. elim h [ ]))
update_states-Updated i endpoint_id start (s ∷ states) =
    let (rest, e, (l, f)) = update_states-Updated (i + 1) endpoint_id start states in
    let new : ℕ = state_byte (next_state (i == endpoint_id) start (state_from s)) in
    (new ∷ rest, rw e refl, (ap suc l, at_position i endpoint_id start s states rest f))

chosen :
    (k endpoint_id : ℕ) (start : Bool) (s : EndpointState)
    → state_byte (next_state (0 + k == endpoint_id) start s)
      ≡ (if k == endpoint_id then state_byte (changed start) else state_byte (carried s))
chosen k endpoint_id start s =
    let same : 0 + k ≡ k = omega arith in
    rw same (elim (Bool-cases (k == endpoint_id)) [
      | inl y ↦ rw y (ap state_byte (next_state-same start s))
      | inr n ↦ rw n (ap state_byte (next_state-other start s))
    ])

-- The states that a call of `add_endpoint_state` leaves, and what it says of endpoint `k`.
abbrev pub Recorded : (d d' : Decoder) → (endpoint_id : ℕ) → Bool → (k : ℕ) → Type 0
Recorded d d' endpoint_id start k =
    (d'.capture.endpoint_states ≡ d.capture.endpoint_states ++ d'.last_endpoint_state)
    × (d'.capture.endpoint_state_index
        ≡ d.capture.endpoint_state_index ++ (length d.capture.endpoint_states ∷ []))
    × (length d'.last_endpoint_state ≡ length d.capture.endpoints)
    × (get_or d'.last_endpoint_state k 0 ≡ (
        if k == endpoint_id
        then state_byte (changed start)
        else state_byte (carried (state_from (get_or d.last_endpoint_state k 0)))))

-- With one state for each endpoint, `add_endpoint_state` returns the position of a new record: the
-- states it appends are again one for each endpoint, `Starting` or `Ending` for the endpoint
-- itself; another is `Ongoing` if it was `Starting` or `Ongoing`, and otherwise `Idle`.
pub add_endpoint_state-Recorded :
    (d : Decoder) (endpoint_id : ℕ) (start : Bool) (k : ℕ)
    → length d.last_endpoint_state ≡ length d.capture.endpoints
    → k < length d.capture.endpoints
    → (d' : Decoder) × (add_endpoint_state endpoint_id start d
        ≡ ok (length d.capture.endpoint_state_index, d'))
      × Recorded d d' endpoint_id start k
unfolding add_endpoint_state
add_endpoint_state-Recorded d endpoint_id start k l h =
    let (states, e, (n, f)) = update_states-Updated 0 endpoint_id start d.last_endpoint_state in
    let c = d.capture in
    (
      record d {
        last_endpoint_state = states;
        capture = record c {
          endpoint_states = c.endpoint_states ++ states;
          endpoint_state_index = c.endpoint_state_index ++ (length c.endpoint_states ∷ []);
        };
      },
      rw (← l, e) refl,
      (
        refl,
        refl,
        n ∙ l,
        f k (omega arith)
            ∙ chosen k endpoint_id start (state_from (get_or d.last_endpoint_state k 0)),
      ),
    )
