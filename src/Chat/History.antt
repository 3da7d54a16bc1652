-- ===== src/Chat/History.antt =====
-- What resuming and truncating a chat does: src/app/chat/repository.py.
use model_lib.Base.{
  ℕ, ◌+◌, ◌⊎◌, ◌↔◌, ◌≤◌, refl, ap, ◌∙◌, Bool, Bool-cases, ltb, if◌then◌else◌, ◌≡◌, sym, true, false,
  ◌&&◌, Option, none, some, List, [], ◌∷◌, arith, ◌==◌, ==_iff, inl, inr, length,
}
use model_lib.Tables.{ChatStep, ToolCall}
use mathlib.Core.Path.{subst}
use mathlib.Core.List.{Memᴰ}
use mathlib.Core.List.Memᴰ
use model_lib.Session.{Session, Result, ok, err}
use model_lib.Audit.{check_user}
use model_lib.Chat.Repository.{get_session, step_in_turn}
use model_lib.Chat.Sessions.{
  NewSession, SessionContext, create_session, resumed, get_or_create_session, will_create_session,
  anchor_seq, is_behind, turn_goes, is_user, smaller, keep_calls, keep_steps, count_behind,
  truncate_at, truncate_from_message_step,
}

-- What is asked beforehand is what then happens: a chat is created exactly when it was said that it
-- would be, else the user's own chat is resumed and nothing is written.
pub get_or_create_session_lem :
    (ttl user_id : ℕ) (session_id : Option ℕ) (fields : NewSession) (s s' : Session)
    (context : SessionContext)
    → get_or_create_session ttl user_id session_id fields s ≡ (ok context, s')
    → (context.is_new ≡ will_create_session ttl user_id s.now session_id s.current)
      × (context.session.user_id ≡ user_id)
      × (s'.current.chat_sessions context.id ≡ some context.session)
      × (context.is_new ≡ false → (session_id ≡ some context.id) × (s' ≡ s))
unfolding get_or_create_session will_create_session resumed create_session get_session check_user
get_or_create_session_lem ttl user_id none fields s s' context h =
    ground (arith, ==_iff s.current.next_id s.current.next_id)
get_or_create_session_lem ttl user_id (some id) fields s s' context h =
    ground (arith, ==_iff s.current.next_id s.current.next_id)

-- what a DELETE of the rows that a test finds leaves of one row and the rows behind it
drop_iff :
    {A : Type 0} (goes : A → Bool) (a x : A) (rest kept : List A)
    → (Memᴰ a kept ↔ (Memᴰ a rest × (goes a ≡ false)))
    → Memᴰ a (if goes x then kept else x ∷ kept) ↔ (Memᴰ a (x ∷ rest) × (goes a ≡ false))
drop_iff goes a x rest kept h = elim (Bool-cases (goes x)) [
  | inl e ↦ rw e (
    λ m. (Memᴰ.tail (h.0 m).0, (h.0 m).1),
    λ (m, f). elim (Memᴰ.cases_cons m) [
      | inl same ↦ let gone : goes x ≡ false = ap goes (sym same) ∙ f in absurd (ground arith)
      | inr r ↦ h.1 (r, f)
    ],
  )
  | inr e ↦ rw e (
    λ m. elim (Memᴰ.cases_cons m) [
      | inl same ↦ (Memᴰ.head same, ap goes same ∙ e)
      | inr r ↦ (Memᴰ.tail (h.0 r).0, (h.0 r).1)
    ],
    λ (m, f). elim (Memᴰ.cases_cons m) [
      | inl same ↦ Memᴰ.head same
      | inr r ↦ Memᴰ.tail (h.1 (r, f))
    ],
  )
]

nothing_left : {A : Type 0} (a : A) (P : Type 0) → Memᴰ a [] ↔ (Memᴰ a [] × P)
nothing_left a P = (λ m. absurd (Memᴰ.not-nil m), λ m. m.0)

module _ (session_id anchor : ℕ) where
  keep_steps_iff :
      (step : ChatStep) (steps : List ChatStep)
      → Memᴰ step (keep_steps session_id anchor steps)
        ↔ (Memᴰ step steps × (is_behind session_id anchor step ≡ false))
  unfolding keep_steps
  keep_steps_iff step [] = nothing_left step (is_behind session_id anchor step ≡ false)
  keep_steps_iff step (x ∷ steps) =
      drop_iff (is_behind session_id anchor) step x steps (keep_steps session_id anchor steps)
        (keep_steps_iff step steps)

  count_lem :
      (steps : List ChatStep)
      → count_behind session_id anchor steps + length (keep_steps session_id anchor steps)
        ≡ length steps
  unfolding count_behind keep_steps
  count_lem [] = omega arith
  count_lem (step ∷ steps) = ground (arith, count_lem steps)

  -- a call of the chat whose turn loses a step
  abbrev pub call_goes : List ChatStep → ToolCall → Bool
  call_goes steps call =
      (call.session_id == session_id) && turn_goes session_id anchor call.message_step_id steps

  keep_calls_iff :
      (steps : List ChatStep) (call : ToolCall) (calls : List ToolCall)
      → Memᴰ call (keep_calls session_id anchor steps calls)
        ↔ (Memᴰ call calls × (call_goes steps call ≡ false))
  unfolding keep_calls
  keep_calls_iff steps call [] = nothing_left call (call_goes steps call ≡ false)
  keep_calls_iff steps call (x ∷ calls) =
      drop_iff (call_goes steps) call x calls (keep_calls session_id anchor steps calls)
        (keep_calls_iff steps call calls)

-- a message of the user's in the turn
module _ (session_id m : ℕ) where
  abbrev pub IsMessage : ChatStep → Type 0
  IsMessage step = (step_in_turn session_id m step && is_user step.role) ≡ true

  -- the place of the first message of the user's in the turn
  pub record IsAnchor (anchor : ℕ) (steps : List ChatStep) : Type 0 where
    pub there : (step : ChatStep) × Memᴰ step steps × IsMessage step × (step.seq ≡ anchor)
    pub first : (step : ChatStep) → Memᴰ step steps → IsMessage step → anchor ≤ step.seq

  abbrev Anchored : Option ℕ → List ChatStep → Type 0
  Anchored none steps = (step : ChatStep) → Memᴰ step steps → ¬ IsMessage step
  Anchored (some anchor) steps = IsAnchor anchor steps

  smaller_lem :
      (o : Option ℕ) (x : ChatStep) (steps : List ChatStep)
      → IsMessage x
      → Anchored o steps
      → IsAnchor (smaller o x.seq) (x ∷ steps)
  smaller_lem none x steps k h = record {
    there = (x, Memᴰ.head refl, k, refl);
    first = λ step n l. elim (Memᴰ.cases_cons n) [
      | inl same ↦ ground (arith, ap ChatStep.seq same)
      | inr r ↦ absurd (h step r l)
    ];
  }
  smaller_lem (some b) x steps k h = elim (Bool-cases (ltb b x.seq)) [
    | inl e ↦ rw e (record {
      there = let (step, n, l, same) = h.there in (step, Memᴰ.tail n, l, same);
      first = λ step n l. elim (Memᴰ.cases_cons n) [
        | inl same ↦ ground (arith, ap ChatStep.seq same)
        | inr r ↦ h.first step r l
      ];
    })
    | inr e ↦ rw e (record {
      there = (x, Memᴰ.head refl, k, refl);
      first = λ step n l. elim (Memᴰ.cases_cons n) [
        | inl same ↦ ground (arith, ap ChatStep.seq same)
        | inr r ↦ ground (arith, h.first step r l)
      ];
    })
  ]

  later_lem :
      (o : Option ℕ) (x : ChatStep) (steps : List ChatStep)
      → ¬ IsMessage x
      → Anchored o steps
      → Anchored o (x ∷ steps)
  later_lem none x steps k h = λ step n l. elim (Memᴰ.cases_cons n) [
    | inl same ↦ k (subst IsMessage same l)
    | inr r ↦ h step r l
  ]
  later_lem (some b) x steps k h = record {
    there = let (step, n, l, same) = h.there in (step, Memᴰ.tail n, l, same);
    first = λ step n l. elim (Memᴰ.cases_cons n) [
      | inl same ↦ absurd (k (subst IsMessage same l))
      | inr r ↦ h.first step r l
    ];
  }

  anchor_lem : (steps : List ChatStep) → Anchored (anchor_seq session_id m steps) steps
  unfolding anchor_seq
  anchor_lem [] = λ step n l. absurd (Memᴰ.not-nil n)
  anchor_lem (x ∷ steps) = elim (Bool-cases (step_in_turn session_id m x && is_user x.role)) [
    | inl e ↦ rw e (smaller_lem (anchor_seq session_id m steps) x steps e (anchor_lem steps))
    | inr e ↦
        rw e
          (later_lem (anchor_seq session_id m steps) x steps (λ k. ground arith) (anchor_lem steps))
  ]

  message_counted :
      (anchor : ℕ) (step : ChatStep) (steps : List ChatStep)
      → Memᴰ step steps
      → is_behind session_id anchor step ≡ true
      → 1 ≤ count_behind session_id anchor steps
  unfolding count_behind
  message_counted anchor step [] n b = absurd (Memᴰ.not-nil n)
  message_counted anchor step (x ∷ steps) n b = elim (Memᴰ.cases_cons n) [
    | inl same ↦
        let e : is_behind session_id anchor x ≡ true =
          subst (λ y. is_behind session_id anchor y ≡ true) same b in
        ground arith
    | inr r ↦ omega (arith, message_counted anchor step steps r b)
  ]

  -- what a truncation from a place on leaves
  abbrev pub IsTruncated : (anchor : ℕ) → Session → Result (Option ℕ) × Session → Type 0
  IsTruncated anchor s (err e, s') = ⊥
  IsTruncated anchor s (ok none, s') = ⊥
  IsTruncated anchor s (ok (some deleted), s') =
      (1 ≤ deleted)
      × (deleted + length s'.current.chat_steps ≡ length s.current.chat_steps)
      × ((step : ChatStep)
          → Memᴰ step s'.current.chat_steps
            ↔ (Memᴰ step s.current.chat_steps × (is_behind session_id anchor step ≡ false)))
      × ((call : ToolCall)
          → Memᴰ call s'.current.tool_calls ↔ (
              Memᴰ call s.current.tool_calls
              × (call_goes session_id anchor s.current.chat_steps call ≡ false)))

  abbrev pub Truncates : Session → Result (Option ℕ) × Session → Type 0
  Truncates s r =
      (((step : ChatStep) → Memᴰ step s.current.chat_steps → ¬ IsMessage step) × (r ≡ (ok none, s)))
      ⊎ ((anchor : ℕ) × IsAnchor anchor s.current.chat_steps × IsTruncated anchor s r)

  truncate_at_lem :
      (anchor : ℕ) (s : Session)
      → IsAnchor anchor s.current.chat_steps
      → IsTruncated anchor s (truncate_at session_id anchor s)
  unfolding truncate_at
  truncate_at_lem anchor s h =
      let (step, n, l, same) = h.there in
      (
        message_counted anchor step s.current.chat_steps n (ground arith),
        count_lem session_id anchor s.current.chat_steps,
        λ x. keep_steps_iff session_id anchor x s.current.chat_steps,
        λ call. keep_calls_iff session_id anchor s.current.chat_steps call s.current.tool_calls,
      )

  truncate_by :
      (o : Option ℕ) (s : Session)
      → Anchored o s.current.chat_steps
      → Truncates s (elim o as (λ _. Result (Option ℕ) × Session) [
        | none ↦ (ok none, s)
        | some anchor ↦ truncate_at session_id anchor s
      ])
  truncate_by none s h = inl (h, refl)
  truncate_by (some anchor) s h = inr (anchor, h, truncate_at_lem anchor s h)

  -- A truncation from a turn does nothing where the turn has no message of the user. Else it
  -- deletes and counts the steps of the chat from the first such message on, which are one at
  -- least, and deletes the tool calls of the chat whose turn loses a step; it leaves exactly all
  -- other steps and tool calls.
  pub truncate_lem : (s : Session) → Truncates s (truncate_from_message_step session_id m s)
  unfolding truncate_from_message_step
  truncate_lem s =
      truncate_by (anchor_seq session_id m s.current.chat_steps) s (anchor_lem s.current.chat_steps)
