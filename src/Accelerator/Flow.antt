-- ===== src/Accelerator/Flow.antt =====
-- Accelerator.cpp: sequences of calls on the side of the edges (`isA` is set), and what the memory is
-- asked for by them.
use mathlib.Core.List.{append-nil, append_assoc}
use mathlib.Core.Path.{subst}
use gcnsim_awb.Prelude.{
  ℕ, zero, suc, ◌+◌, ◌≤◌, ◌<◌, ◌≡◌, refl, true, false, ltb, ltb→lt, List, [], ◌∷◌, ◌++◌, some,
  some-eq, >>=-eq-some, pop_front, length, length-append, length-take, take, drop, take-append-drop,
  inl, inr, ◌⊎◌, Bool-cases, arith, sym, ◌∙◌, ap, ap₂,
}
use gcnsim_awb.Prelude.Words.{add64}
use gcnsim_awb.Config.{Config}
use gcnsim_awb.Dram.{Dram, dram_request}
use gcnsim_awb.EdgeReader.{ErData, write_of}
use gcnsim_awb.Accelerator.{
  XrData, Accelerator, accelerator, can_receive, receive_xr_data, receive_er_data, write_zero_row,
  mac,
}
use gcnsim_awb.Accelerator.Lines.{
  lines, line_at, ends, lines-add, line_at-add, writes-lines, address_after-line_at, ends-append,
}
use gcnsim_awb.Accelerator.Mac.{
  started, started-append, length-started, writes, address_after, mac-working,
}

drop_all : (l : List ErData) (k : ℕ) → length l ≤ k → drop k l ≡ []
drop_all [] zero h = refl
drop_all [] (suc k) h = refl
drop_all (d ∷ l) zero h = absurd (omega arith)
drop_all (d ∷ l) (suc k) h = drop_all l k (omega arith)

module _ (c : Config) (axw_offset pe : ℕ) (s₀ : Dram) where
  -- Calls from the constructor on: the edges received, and the zero rows written.
  pub data Reach : List ErData → ℕ → Accelerator → Dram → Type 0 where
    here : Reach [] 0 (record (accelerator c axw_offset pe) { is_a = true }) s₀
    feature :
        {r : List ErData} {z : ℕ} {a : Accelerator} {s : Dram} (d : XrData)
        → Reach r z a s
        → Reach r z (receive_xr_data d a) s
    edge :
        {r : List ErData} {z : ℕ} {a : Accelerator} {s : Dram} (d : ErData)
        → Reach r z a s
        → Reach (r ++ d ∷ []) z (receive_er_data d a) s
    zero_line :
        {r : List ErData} {z : ℕ} {a a' : Accelerator} {s s' : Dram} (rows rest : List ℕ)
        → Reach r z a s
        → write_zero_row c rows a s ≡ some (rest, a', s')
        → Reach r (z + 1) a' s'
    multiplied :
        {r : List ErData} {z : ℕ} {a a' : Accelerator} {s s' : Dram}
        → Reach r z a s
        → mac c a s ≡ some (a', s')
        → Reach r z a' s'

  abbrev pub start : ℕ
  start = (accelerator c axw_offset pe).axw_address

  abbrev pub limit : ℕ
  limit = (accelerator c axw_offset pe).limit

  -- The edges received are the finished ones, those in work and those that wait, in this order.
  pub record IsFlowing (r : List ErData) (z : ℕ) (a : Accelerator) (s : Dram) : Type 0 where
    pub finished : List ErData
    pub now : List ErData
    pub received : r ≡ finished ++ (now ++ a.a_data)
    pub in_work : a.m2_data ≡ started now
    pub side : a.is_a ≡ true
    pub places : a.limit ≡ limit
    pub few : length now ≤ limit
    pub full : (a.a_data ≡ []) ⊎ (length now ≡ limit)
    pub asked : s.t_queue ≡ s₀.t_queue ++ lines c start (ends finished + z)
    pub next : a.axw_address ≡ line_at c start (ends finished + z)

  here-IsFlowing : IsFlowing [] 0 (record (accelerator c axw_offset pe) { is_a = true }) s₀
  unfolding accelerator
  here-IsFlowing = record {
    finished = [];
    now = [];
    received = refl;
    in_work = refl;
    side = refl;
    places = refl;
    few = omega arith;
    full = inl refl;
    asked = sym (append-nil s₀.t_queue);
    next = refl;
  }

  -- A call that changes nothing of this.
  same-IsFlowing :
      (r : List ErData) (z : ℕ) (a b : Accelerator) (s : Dram)
      → IsFlowing r z a s
      → b.is_a ≡ a.is_a
      → b.limit ≡ a.limit
      → b.axw_address ≡ a.axw_address
      → b.a_data ≡ a.a_data
      → b.m2_data ≡ a.m2_data
      → IsFlowing r z b s
  same-IsFlowing r z a b s f side_ places_ next_ later work = record {
    finished = f.finished;
    now = f.now;
    received = f.received ∙ ap (λ l. f.finished ++ (f.now ++ l)) (sym later);
    in_work = work ∙ f.in_work;
    side = side_ ∙ f.side;
    places = places_ ∙ f.places;
    few = f.few;
    full = subst (λ l. (l ≡ []) ⊎ (length f.now ≡ limit)) (sym later) f.full;
    asked = f.asked;
    next = next_ ∙ f.next;
  }

  feature-IsFlowing :
      (r : List ErData) (z : ℕ) (a : Accelerator) (s : Dram) (d : XrData)
      → IsFlowing r z a s
      → IsFlowing r z (receive_xr_data d a) s
  unfolding receive_xr_data
  feature-IsFlowing r z a s d f = elim (Bool-cases (can_receive a)) [
    | inl room ↦ rw room (same-IsFlowing r z a _ s f refl refl refl refl refl)
    | inr none_ ↦ rw none_ (same-IsFlowing r z a _ s f refl refl refl refl refl)
  ]

  can_receive-side :
      (a : Accelerator) → a.is_a ≡ true → can_receive a ≡ ltb (length a.m2_data) a.limit
  unfolding can_receive
  can_receive-side a e = rw e refl

  length-in_work :
      (r : List ErData) (z : ℕ) (a : Accelerator) (s : Dram) (f : IsFlowing r z a s)
      → length a.m2_data ≡ length f.now
  length-in_work r z a s f = ap length f.in_work ∙ length-started f.now

  edge-IsFlowing :
      (r : List ErData) (z : ℕ) (a : Accelerator) (s : Dram) (d : ErData)
      → IsFlowing r z a s
      → IsFlowing (r ++ d ∷ []) z (receive_er_data d a) s
  unfolding receive_er_data
  edge-IsFlowing r z a s d f =
      let size = length-in_work r z a s f in
      rw (can_receive-side a f.side) (elim (Bool-cases (ltb (length a.m2_data) a.limit)) [
        | inl room ↦
            let below : length a.m2_data < a.limit = ltb→lt (length a.m2_data) a.limit room in
            let nothing : a.a_data ≡ [] = no_wait f.full (omega (arith, size, f.places)) in
            rw room (record {
              finished = f.finished;
              now = f.now ++ d ∷ [];
              received =
                  ap (λ l. l ++ d ∷ [])
                    (f.received
                      ∙ ap (λ l. f.finished ++ (f.now ++ l)) nothing
                      ∙ ap (λ l. f.finished ++ l) (append-nil f.now))
                  ∙ append_assoc f.finished f.now (d ∷ [])
                  ∙ ap (λ l. f.finished ++ l) (sym (append-nil (f.now ++ d ∷ [])))
                  ∙ ap (λ l. f.finished ++ ((f.now ++ d ∷ []) ++ l)) (sym nothing);
              in_work =
                  ap (λ l. l ++ record { datum = d; pre_cycle = 0 } ∷ []) f.in_work
                  ∙ sym (started-append f.now (d ∷ []));
              side = f.side;
              places = f.places;
              few = omega (arith, size, f.places, length-append f.now (d ∷ []));
              full = inl nothing;
              asked = f.asked;
              next = f.next;
            })
        | inr none_ ↦ rw none_ (record {
          finished = f.finished;
          now = f.now;
          received =
              ap (λ l. l ++ d ∷ []) f.received
              ∙ append_assoc f.finished (f.now ++ a.a_data) (d ∷ [])
              ∙ ap (λ l. f.finished ++ l) (append_assoc f.now a.a_data (d ∷ []));
          in_work = f.in_work;
          side = f.side;
          places = f.places;
          few = f.few;
          full = inr (filled none_ size f.places f.few);
          asked = f.asked;
          next = f.next;
        })
      ])
    where
      no_wait :
          {l : List ErData} → (l ≡ []) ⊎ (length f.now ≡ limit) → length f.now < limit → l ≡ []
      no_wait (inl e) h = e
      no_wait (inr e) h = absurd (omega arith)

      filled :
          ltb (length a.m2_data) a.limit ≡ false
          → length a.m2_data ≡ length f.now
          → a.limit ≡ limit
          → length f.now ≤ limit
          → length f.now ≡ limit
      filled h size here_ few_ =
          let above : a.limit ≤ length a.m2_data = ground arith in omega arith

  zero_line-IsFlowing :
      (r : List ErData) (z : ℕ) (a a' : Accelerator) (s s' : Dram) (rows rest : List ℕ)
      → IsFlowing r z a s
      → write_zero_row c rows a s ≡ some (rest, a', s')
      → IsFlowing r (z + 1) a' s'
  unfolding write_zero_row dram_request
  zero_line-IsFlowing r z a a' s s' rows rest f e =
      let ((row, left), run, done) = >>=-eq-some (pop_front rows) _ e in
      let n = ends f.finished + z in
      let step : ends f.finished + (z + 1) ≡ n + 1 = omega arith in
      subst {A = List ℕ × Accelerator × Dram} (λ q. IsFlowing r (z + 1) (q.1) (q.2)) (some-eq done)
        (record {
          finished = f.finished;
          now = f.now;
          received = f.received;
          in_work = f.in_work;
          side = f.side;
          places = f.places;
          few = f.few;
          full = f.full;
          asked =
              ap₂ (λ l x. l ++ write_of x ∷ []) f.asked f.next
              ∙ append_assoc s₀.t_queue (lines c start n) (write_of (line_at c start n) ∷ [])
              ∙ ap (λ l. s₀.t_queue ++ l)
                  (sym (lines-add c start n 1 (ends f.finished + (z + 1)) step));
          next =
              ap (λ x. add64 x c.cache_line_byte) f.next
              ∙ sym (line_at-add c start n 1 (ends f.finished + (z + 1)) step);
        })

  multiplied-IsFlowing :
      (r : List ErData) (z : ℕ) (a a' : Accelerator) (s s' : Dram)
      → IsFlowing r z a s
      → mac c a s ≡ some (a', s')
      → IsFlowing r z a' s'
  multiplied-IsFlowing r z a a' s s' f e =
      let n = ends f.finished + z in
      let k = length f.now in
      let more : ends (f.finished ++ f.now) + z ≡ n + ends f.now =
        omega (arith, ends-append f.finished f.now) in
      subst {A = Accelerator × Dram} (λ q. IsFlowing r z (q.0) (q.1))
        (some-eq (sym (mac-working c a s f.now f.in_work) ∙ e))
        (record {
          finished = f.finished ++ f.now;
          now = take k a.a_data;
          received =
              f.received
              ∙ sym (append_assoc f.finished f.now a.a_data)
              ∙ ap (λ l. (f.finished ++ f.now) ++ l) (sym (take-append-drop k a.a_data));
          in_work = refl;
          side = f.side;
          places = f.places;
          few = omega (arith, length-take k a.a_data, f.few);
          full = rest_full a.a_data f.full;
          asked =
              ap₂ (λ l x. l ++ writes c x f.now) f.asked f.next
              ∙ append_assoc s₀.t_queue (lines c start n) (writes c (line_at c start n) f.now)
              ∙ ap (λ l. s₀.t_queue ++ (lines c start n ++ l))
                  (writes-lines c (line_at c start n) f.now)
              ∙ ap (λ l. s₀.t_queue ++ l) (sym (lines-add c start n (ends f.now) _ more));
          next =
              ap (λ x. address_after c x f.now) f.next
              ∙ address_after-line_at c (line_at c start n) f.now
              ∙ sym (line_at-add c start n (ends f.now) _ more);
        })
    where
      order : (m n : ℕ) → (m ≤ n) ⊎ (n < m)
      order m n = ground arith

      rest_full :
          (l : List ErData)
          → (l ≡ []) ⊎ (length f.now ≡ limit)
          → (drop (length f.now) l ≡ []) ⊎ (length (take (length f.now) l) ≡ limit)
      rest_full l h = elim (order (length l) (length f.now)) [
        | inl short ↦ inl (drop_all l (length f.now) short)
        | inr long ↦ elim h [
          | inl e₁ ↦ inl (ap (drop (length f.now)) e₁ ∙ drop_all [] (length f.now) (omega arith))
          | inr e₁ ↦ inr (omega (arith, length-take (length f.now) l))
        ]
      ]

  -- What the edge side keeps at every point.
  pub Reach-IsFlowing :
      {r : List ErData} {z : ℕ} {a : Accelerator} {s : Dram} → Reach r z a s → IsFlowing r z a s
  Reach-IsFlowing here = here-IsFlowing
  Reach-IsFlowing (feature {r = r} {z = z} {a = a} {s = s} d h) =
      feature-IsFlowing r z a s d (Reach-IsFlowing h)
  Reach-IsFlowing (edge {r = r} {z = z} {a = a} {s = s} d h) =
      edge-IsFlowing r z a s d (Reach-IsFlowing h)
  Reach-IsFlowing (zero_line {r = r} {z = z} {a = a} {a' = a'} {s = s} {s' = s'} rows rest h e) =
      zero_line-IsFlowing r z a a' s s' rows rest (Reach-IsFlowing h) e
  Reach-IsFlowing (multiplied {r = r} {z = z} {a = a} {a' = a'} {s = s} {s' = s'} h e) =
      multiplied-IsFlowing r z a a' s s' (Reach-IsFlowing h) e
