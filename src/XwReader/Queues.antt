-- ===== src/XwReader/Queues.antt =====
-- XWReader.cpp: sequences of calls.
use mathlib.Core.List.{append_assoc}
use mathlib.Core.Path.{subst}
use gcnsim_awb.Prelude.{
  ℕ, ◌+◌, ◌*◌, ◌≤◌, ◌≡◌, refl, true, false, if◌then◌else◌, ltb, List, [], ◌∷◌, ◌++◌, some, is_empty,
  length, length-append, List-cases, Bool-cases, inl, inr, ◌⊎◌, arith, sym, ◌∙◌, ap,
}
use gcnsim_awb.Prelude.Words.{add64, sub64}
use gcnsim_awb.Config.{Config, max_queue_size}
use gcnsim_awb.EdgeReader.{ErData}
use gcnsim_awb.XwReader.{
  XwReader, xw_reader, is_end_operation, transfer_data, request, receive_data, turn_off_flag,
}

-- A sequence of calls, each behind the test that guards it: the edges received, those handed to
-- the buffer and those handed to the accelerator.
pub data Reach (c : Config) (a_col_size : ℕ)
    : List ErData → List ErData → List ErData → XwReader → Type 0 where
  here : Reach c a_col_size [] [] [] (xw_reader c a_col_size)
  received :
      {ins asked given : List ErData} {s : XwReader} (d : ErData)
      → Reach c a_col_size ins asked given s
      → s.can_receive ≡ true
      → Reach c a_col_size (ins ++ d ∷ []) asked given (receive_data d s)
  requested :
      {ins asked given : List ErData} {s s' : XwReader} {d : ErData}
      → Reach c a_col_size ins asked given s
      → request s ≡ some (d, s')
      → Reach c a_col_size ins (asked ++ d ∷ []) given s'
  transferred :
      {ins asked given : List ErData} {s s' : XwReader} {d : ErData}
      → Reach c a_col_size ins asked given s
      → transfer_data s ≡ some (d, s')
      → Reach c a_col_size ins asked (given ++ d ∷ []) s'
  turned_off :
      {ins asked given : List ErData} {s : XwReader}
      → Reach c a_col_size ins asked given s
      → is_end_operation s ≡ true
      → Reach c a_col_size ins asked given (turn_off_flag s)

-- Both queues hold what has come in and not gone out yet, in that order; `q_space` counts two for each
-- entry of the copy, of which there are at most half of MAX_QUEUE_SIZE.
pub record IsHeld (ins asked given : List ErData) (s : XwReader) : Type 0 where
  pub waiting : ins ≡ asked ++ s.xwq
  pub archived : ins ≡ given ++ s.xwq_archive
  pub empty : s.q_empty ≡ is_empty s.xwq
  pub space : s.q_space ≡ 2 * length s.xwq_archive
  pub bound : s.q_space ≤ max_queue_size
  pub room : (s.can_receive ≡ false) ⊎ (s.q_space + 2 ≤ max_queue_size)

is_empty-append : (l : List ErData) (d : ErData) → is_empty (l ++ d ∷ []) ≡ false
is_empty-append [] d = refl
is_empty-append (e ∷ l) d = refl

-- The front of a queue goes to the end of what is out.
moved :
    (out q : List ErData) (f d : ErData) (rest : List ErData)
    → q ≡ f ∷ rest
    → f ≡ d
    → out ++ q ≡ (out ++ d ∷ []) ++ rest
moved out q f d rest e first =
    ap (λ l. out ++ l) (e ∙ ap (λ x. x ∷ rest) first) ∙ sym (append_assoc out (d ∷ []) rest)

module _ {ins asked given : List ErData} (s : XwReader) (v : IsHeld ins asked given s) where
  receive_data-IsHeld :
      (d : ErData) → s.can_receive ≡ true → IsHeld (ins ++ d ∷ []) asked given (receive_data d s)
  unfolding receive_data
  receive_data-IsHeld d open_ =
      let fits : s.q_space + 2 ≤ max_queue_size = elim v.room [
        | inl shut ↦ absurd (cc)
        | inr r ↦ r
      ] in
      record {
        waiting = ap (λ l. l ++ d ∷ []) v.waiting ∙ append_assoc asked s.xwq (d ∷ []);
        archived = ap (λ l. l ++ d ∷ []) v.archived ∙ append_assoc given s.xwq_archive (d ∷ []);
        empty = sym (is_empty-append s.xwq d);
        space = omega (arith, v.space, fits, length-append s.xwq_archive (d ∷ []));
        bound = omega (arith, fits);
        room = elim (Bool-cases (ltb (sub64 max_queue_size (add64 s.q_space 2)) 2)) [
          | inl full ↦ inl (rw full refl)
          | inr more ↦ inr (ground arith)
        ];
      }

  request-IsHeld :
      (d : ErData) (s' : XwReader)
      → request s ≡ some (d, s')
      → IsHeld ins (asked ++ d ∷ []) given s'
  unfolding request
  request-IsHeld d s' e = elim (List-cases s.xwq) [
    | inl k ↦ absurd (ground arith)
    | inr (f, rest, k) ↦
        let first : f ≡ d = ground arith in
        let last : record s {
          xwq = rest;
          req_cnt = add64 s.req_cnt 1;
          q_empty = if is_empty rest then true else s.q_empty;
        }
            ≡ s' =
          ground arith in
        subst (IsHeld ins (asked ++ d ∷ []) given) last (record {
          waiting = v.waiting ∙ moved asked s.xwq f d rest k first;
          archived = v.archived;
          empty = ground (arith, v.empty);
          space = v.space;
          bound = v.bound;
          room = v.room;
        })
  ]

  transfer_data-IsHeld :
      (d : ErData) (s' : XwReader)
      → transfer_data s ≡ some (d, s')
      → IsHeld ins asked (given ++ d ∷ []) s'
  unfolding transfer_data
  transfer_data-IsHeld d s' e = elim (List-cases s.xwq_archive) [
    | inl k ↦ absurd (ground arith)
    | inr (f, rest, k) ↦
        let first : f ≡ d = ground arith in
        let last : record s {
          xwq_archive = rest;
          q_space = sub64 s.q_space 2;
          can_receive = if is_end_operation s then s.can_receive else true;
        }
            ≡ s' =
          ground arith in
        subst (IsHeld ins asked (given ++ d ∷ [])) last (record {
          waiting = v.waiting;
          archived = v.archived ∙ moved given s.xwq_archive f d rest k first;
          empty = v.empty;
          space = omega (arith, v.space, v.bound, ap length k);
          bound = omega (arith, v.space, v.bound, ap length k);
          room = inr (omega (arith, v.space, v.bound, ap length k));
        })
  ]

  turn_off_flag-IsHeld : IsHeld ins asked given (turn_off_flag s)
  unfolding turn_off_flag
  turn_off_flag-IsHeld = record {
    waiting = v.waiting;
    archived = v.archived;
    empty = v.empty;
    space = v.space;
    bound = v.bound;
    room = inl refl;
  }

-- Whatever the edge reader, the buffer and the accelerator do in turn, the buffer and the accelerator get
-- the edges received, each in the order of their arrival, without loss or repetition. The copy from which
-- the accelerator is served, the edges not given to it yet, has at most half of MAX_QUEUE_SIZE
-- entries.
pub Reach-IsHeld :
    (c : Config) (a_col_size : ℕ) {ins asked given : List ErData} {s : XwReader}
    → Reach c a_col_size ins asked given s
    → IsHeld ins asked given s
unfolding xw_reader
Reach-IsHeld c n here = record {
  waiting = refl;
  archived = refl;
  empty = refl;
  space = refl;
  bound = omega arith;
  room = inr (omega arith);
}
Reach-IsHeld c n (received {s = s} d r open_) = receive_data-IsHeld s (Reach-IsHeld c n r) d open_
Reach-IsHeld c n (requested {s = s} {s' = s'} {d = d} r e) =
    request-IsHeld s (Reach-IsHeld c n r) d s' e
Reach-IsHeld c n (transferred {s = s} {s' = s'} {d = d} r e) =
    transfer_data-IsHeld s (Reach-IsHeld c n r) d s' e
Reach-IsHeld c n (turned_off {s = s} r e) = turn_off_flag-IsHeld s (Reach-IsHeld c n r)
