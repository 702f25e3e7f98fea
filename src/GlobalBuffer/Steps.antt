-- ===== src/GlobalBuffer/Steps.antt =====
-- GlobalBuffer.cpp: sequences of calls, as RunSimulator.cpp guards them (in a comment).

use gcnsim_awb.Prelude.{
  ℕ, suc, ◌+◌, ◌≤◌, ◌≡◌, refl, inl, inr, Bool, true, false, not, ◌==◌, if◌then◌else◌, List, [], ◌∷◌,
  ◌++◌, some, length, length-append, List-cases, arith, ap, is_empty,
}
use gcnsim_awb.EdgeReader.{ErData}
use gcnsim_awb.Cache.Dispatch.{Settings, Policies}
use gcnsim_awb.GlobalBuffer.{
  GlobalBuffer, global_buffer, is_requested, lookup, put, enqueue, receive_edge, receive_line,
  update_transfer, transfer_a_data, limit_wq_size,
}
use gcnsim_awb.GlobalBuffer.Requests.{
  Asks, asks_nothing, asks_one, SameQueue, edge-Asks, check-Asks, line-SameQueue,
}

-- A call, with the addresses of the reads that it answers: an edge comes in if `can_receive`, a line
-- that is outstanding comes back, and an edge goes out if there is one.
pub data Step (st : Settings) : GlobalBuffer → List ℕ → GlobalBuffer → Type 0 where
  edge :
      (d : ErData) (g g' : GlobalBuffer)
      → g.can_receive ≡ true
      → receive_edge st d g ≡ some g'
      → Step st g [] g'
  line :
      (address : ℕ) (g g' : GlobalBuffer)
      → is_requested address g ≡ true
      → receive_line st address g ≡ some g'
      → Step st g (address ∷ []) g'
  check : (g g' : GlobalBuffer) → update_transfer st g ≡ some g' → Step st g [] g'
  take :
      (d : ErData) (g g' : GlobalBuffer)
      → g.q_empty ≡ false
      → transfer_a_data g ≡ some (d, g')
      → Step st g [] g'

-- A sequence of calls, with the addresses answered in it, latest first.
pub data Reach (st : Settings) (g₀ : GlobalBuffer) : List ℕ → GlobalBuffer → Type 0 where
  here : Reach st g₀ [] g₀
  next :
      {old bs : List ℕ} {g h : GlobalBuffer}
      → Reach st g₀ old g
      → Step st g bs h
      → Reach st g₀ (bs ++ old) h

-- The queue holds at most 32 edges; `can_receive` says that there is room for one more, and
-- `q_empty` that there is none.
pub record IsQueued (g : GlobalBuffer) : Type 0 where
  pub bound : length g.wq ≤ limit_wq_size
  pub room : g.can_receive ≡ not (length g.wq == limit_wq_size)
  pub empty : g.q_empty ≡ is_empty g.wq

abbrev pub count : ℕ → List ℕ → ℕ
count a [] = 0
count a (b ∷ l) = if b == a then suc (count a l) else count a l

count-append : (a : ℕ) (l m : List ℕ) → count a (l ++ m) ≡ count a l + count a m
count-append a [] m = ground arith
count-append a (b ∷ l) m = ground (arith, count-append a l m)

-- 1 if the line is outstanding.
abbrev pub outstanding : ℕ → GlobalBuffer → ℕ
outstanding a g = if is_requested a g then 1 else 0

lookup-put :
    (a b : ℕ) (v : Bool) (m : List (ℕ × Bool))
    → lookup false a (put b v m) ≡ (if b == a then v else lookup false a m)
unfolding lookup put
lookup-put a b v [] = ground arith
lookup-put a b v ((j, w) ∷ m) = ground (arith, lookup-put a b v m)

-- What the reads asked for and answered have to do with the table, for one address.
abbrev IsBalanced : ℕ → List ℕ → GlobalBuffer → Type 0
IsBalanced a old g = count a g.requests ≡ count a old + outstanding a g

Asks-IsBalanced :
    (a : ℕ) (old : List ℕ) (g g' : GlobalBuffer)
    → Asks g g'
    → IsBalanced a old g
    → IsBalanced a old g'
Asks-IsBalanced a old g g' (asks_nothing r t) v =
    ground (arith, ap (lookup false a) t, ap (count a) r)
Asks-IsBalanced a old g g' (asks_one b new r t) v = ground (
  arith,
  ap (lookup false a) t,
  ap (count a) r,
  count-append a g.requests (b ∷ []),
  lookup-put a b true g.w_req_table,
)

line-IsBalanced :
    (a b : ℕ) (old : List ℕ) (g g' : GlobalBuffer)
    → is_requested b g ≡ true
    → g'.requests ≡ g.requests
    → g'.w_req_table ≡ put b false g.w_req_table
    → IsBalanced a old g
    → IsBalanced a (b ∷ old) g'
line-IsBalanced a b old g g' asked r t v =
    ground (arith, ap (lookup false a) t, ap (count a) r, lookup-put a b false g.w_req_table)

is_empty-append : (q : List ErData) (d : ErData) → is_empty (q ++ d ∷ []) ≡ false
is_empty-append [] d = refl
is_empty-append (x ∷ q) d = refl

enqueue-IsQueued :
    (d : ErData) (g : GlobalBuffer) → g.can_receive ≡ true → IsQueued g → IsQueued (enqueue d g)
unfolding enqueue
enqueue-IsQueued d g k v =
    ground (arith, v.bound, v.room, length-append g.wq (d ∷ []), is_empty-append g.wq d)

same-IsQueued : (g g' : GlobalBuffer) → SameQueue g g' → IsQueued g → IsQueued g'
same-IsQueued g g' s v = ground (arith, v.bound, v.room, v.empty, s.wq, s.q_empty, s.can_receive)

take-IsQueued :
    (d : ErData) (g g' : GlobalBuffer)
    → transfer_a_data g ≡ some (d, g')
    → IsQueued g
    → IsQueued g' × Asks g g'
unfolding transfer_a_data
take-IsQueued d g g' e v = elim (List-cases g.wq) [
  | inl k ↦ absurd (ground arith)
  | inr (x, rest, k) ↦ (ground (arith, v.bound), asks_nothing (ground arith) (ground arith))
]

-- The invariant for one address.
record IsSound (a : ℕ) (answers : List ℕ) (g : GlobalBuffer) : Type 0 where
  queued : IsQueued g
  balanced : IsBalanced a answers g

Step-IsSound :
    (st : Settings) (a : ℕ) (old : List ℕ) {new : List ℕ} {g g' : GlobalBuffer}
    → Step st g new g'
    → IsSound a old g
    → IsSound a (new ++ old) g'
Step-IsSound st a old (edge d g g' k e) v =
    let (s, asks) = edge-Asks st d g g' e in
    record {
      queued = same-IsQueued (enqueue d g) g' s (enqueue-IsQueued d g k v.queued);
      balanced = Asks-IsBalanced a old g g' asks v.balanced;
    }
Step-IsSound st a old (line b g g' k e) v =
    let (s, r, t) = line-SameQueue st b g g' e in
    record {
      queued = same-IsQueued g g' s v.queued;
      balanced = line-IsBalanced a b old g g' k r t v.balanced;
    }
Step-IsSound st a old (check g g' e) v =
    let (s, asks) = check-Asks st g g' e in
    record {
      queued = same-IsQueued g g' s v.queued;
      balanced = Asks-IsBalanced a old g g' asks v.balanced;
    }
Step-IsSound st a old (take d g g' k e) v =
    let (q, asks) = take-IsQueued d g g' e v.queued in
    record { queued = q; balanced = Asks-IsBalanced a old g g' asks v.balanced }

reached-IsSound :
    (st : Settings) (policies : Policies) (a : ℕ) {answers : List ℕ} {g : GlobalBuffer}
    → Reach st (global_buffer st policies) answers g
    → IsSound a answers g
unfolding global_buffer lookup
reached-IsSound st policies a here = record {
  queued = record { bound = omega arith; room = refl; empty = refl };
  balanced = refl;
}
reached-IsSound st policies a (next {old} r step) =
    Step-IsSound st a old step (reached-IsSound st policies a r)

-- After any sequence of calls from the constructor's state in which edges come in only if
-- `can_receive` holds and go out only if there is one, and only outstanding lines come back, the
-- queue holds at most 32 edges, and its flags tell exactly whether there is room and whether it is empty.
pub Reach-IsQueued :
    (st : Settings) (policies : Policies) (answers : List ℕ) (g : GlobalBuffer)
    → Reach st (global_buffer st policies) answers g
    → IsQueued g
Reach-IsQueued st policies answers g r = (reached-IsSound st policies 0 r).queued

-- After any sequence of calls from the constructor's state in which only outstanding lines come back,
-- edges come in only if `can_receive` holds and go out only if there is one, every line was asked for
-- as often as it came back, and once more if it is outstanding: no line is asked for while a read of
-- it is under way.
pub Reach-outstanding :
    (st : Settings) (policies : Policies) (a : ℕ) (answers : List ℕ) (g : GlobalBuffer)
    → Reach st (global_buffer st policies) answers g
    → count a g.requests ≡ count a answers + outstanding a g
Reach-outstanding st policies a answers g r = (reached-IsSound st policies a r).balanced
