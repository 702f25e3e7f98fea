-- ===== src/Simulator/Serving.antt =====
-- RunSimulator.cpp, the controller's turn: the column indices of what has arrived.
use mathlib.Core.List.{append-nil, append_assoc}
use mathlib.Core.Path.{subst₂}
use gcnsim_awb.Prelude.{
  ℕ, zero, suc, ◌≡◌, ◌==◌, List, [], ◌∷◌, ◌++◌, some, leb, Bool-cases, Option-cases, List-cases,
  inl, inr, arith, sym, ◌∙◌, ap,
}
use gcnsim_awb.Prelude.Words.{add64, sub64, rounds, int_of}
use gcnsim_awb.Config.{Config}
use gcnsim_awb.Distributer
use gcnsim_awb.DataController.{
  DataController, Stream, x, a_row, a_col, return_data_type, adj_row_data_return,
  adj_col_data_return, next_chunk, pop_many,
}
use gcnsim_awb.Simulator.{
  Arrival, no_read, a_read, w_read, Chunk, no_chunk, row_chunk, col_chunk, serve, controller_turn,
}

-- The column indices of the chunks, one after the other.
abbrev pub cols_of : List Chunk → List ℕ
cols_of [] = []
cols_of (no_chunk ∷ ks) = cols_of ks
cols_of (row_chunk l ∷ ks) = cols_of ks
cols_of (col_chunk l ∷ ks) = l ++ cols_of ks

pop_many-append : (n : ℕ) (q ret rest : List ℕ) → pop_many n q ≡ some (ret, rest) → ret ++ rest ≡ q
unfolding pop_many
pop_many-append zero q ret rest e = ground arith
pop_many-append (suc n) [] ret rest e = absurd (ground arith)
pop_many-append (suc n) (v ∷ q) ret rest e = elim (Option-cases (pop_many n q)) [
  | inl k ↦ absurd (ground arith)
  | inr ((r, q'), k) ↦ ground (arith, pop_many-append n q r q' k)
]

chunk-append :
    (line : ℕ) (s s' : Stream) (l : List ℕ)
    → next_chunk line s ≡ some (l, s')
    → (l ++ s'.queue ≡ s.queue) × (s'.archive ≡ s.archive)
unfolding next_chunk
chunk-append line s s' l e = elim (List-cases s.req_count_cnt) [
  | inl k ↦ absurd (ground arith)
  | inr (first, others, k) ↦ elim (Bool-cases (leb first (add64 s.limit line))) [
    | inl b ↦ elim (Option-cases (pop_many (rounds (int_of (sub64 first s.limit))) s.queue)) [
      | inl h ↦ absurd (ground arith)
      | inr ((r, q), h) ↦
          ground (arith, pop_many-append (rounds (int_of (sub64 first s.limit))) s.queue r q h)
    ]
    | inr b ↦ elim (Option-cases (pop_many (rounds (int_of line)) s.queue)) [
      | inl h ↦ absurd (ground arith)
      | inr ((r, q), h) ↦ ground (arith, pop_many-append (rounds (int_of line)) s.queue r q h)
    ]
  ]
]

-- What the controller's turn leaves of the column indices.
abbrev pub Served : List Chunk → DataController → DataController → Type 0
Served ks dc dc' =
    (cols_of ks ++ dc'.cols.queue ≡ dc.cols.queue) × (dc'.cols.archive ≡ dc.cols.archive)

rows-cols :
    (c : Config) (dc dc' : DataController) (l : List ℕ)
    → adj_row_data_return c dc ≡ some (l, dc')
    → dc'.cols ≡ dc.cols
unfolding adj_row_data_return
rows-cols c dc dc' l e = elim (Option-cases (next_chunk c.cache_line_count dc.rows)) [
  | inl k ↦ absurd (ground arith)
  | inr ((r, s), k) ↦ ground arith
]

cols-append :
    (c : Config) (dc dc' : DataController) (l : List ℕ)
    → adj_col_data_return c dc ≡ some (l, dc')
    → (l ++ dc'.cols.queue ≡ dc.cols.queue) × (dc'.cols.archive ≡ dc.cols.archive)
unfolding adj_col_data_return
cols-append c dc dc' l e = elim (Option-cases (next_chunk c.cache_line_count dc.cols)) [
  | inl k ↦ absurd (ground arith)
  | inr ((r, s), k) ↦ ground (arith, chunk-append c.cache_line_count dc.cols s r k)
]

Served-cons :
    (k : Chunk) (ks : List Chunk) (dc dc₁ dc₂ : DataController)
    → Served (k ∷ []) dc dc₁
    → Served ks dc₁ dc₂
    → Served (k ∷ ks) dc dc₂
Served-cons no_chunk ks dc dc₁ dc₂ a b = (b.0 ∙ a.0, b.1 ∙ a.1)
Served-cons (row_chunk l) ks dc dc₁ dc₂ a b = (b.0 ∙ a.0, b.1 ∙ a.1)
Served-cons (col_chunk l) ks dc dc₁ dc₂ a b = (
  append_assoc l (cols_of ks) dc₂.cols.queue
      ∙ ap (λ q. l ++ q) b.0
      ∙ ap (λ q. q ++ dc₁.cols.queue) (sym (append-nil l))
      ∙ a.0,
  b.1 ∙ a.1,
)

serve-Served :
    (c : Config) (r : Arrival) (k : Chunk) (dc dc' : DataController)
    → serve c r dc ≡ some (k, dc')
    → Served (k ∷ []) dc dc'
unfolding serve
serve-Served c no_read k dc dc' e = ground arith
serve-Served c (w_read address) k dc dc' e = ground arith
serve-Served c (a_read address) k dc dc' e =
    elim (Bool-cases (Distributer.return_id address == 0)) [
      | inr b ↦ absurd (ground arith)
      | inl b ↦ elim (Option-cases (return_data_type c address)) [
        | inl h ↦ absurd (ground arith)
        | inr (x, h) ↦ ground arith
        | inr (a_row, h) ↦ elim (Option-cases (adj_row_data_return c dc)) [
          | inl g ↦ absurd (ground arith)
          | inr ((l, dc₁), g) ↦ ground (arith, rows-cols c dc dc₁ l g)
        ]
        | inr (a_col, h) ↦ elim (Option-cases (adj_col_data_return c dc)) [
          | inl g ↦ absurd (ground arith)
          | inr ((l, dc₁), g) ↦ ground (arith, cols-append c dc dc₁ l g, append-nil l)
        ]
      ]
    ]

pub controller_turn-Served :
    (c : Config) (rs : List Arrival) (ks : List Chunk) (dc dc' : DataController)
    → controller_turn c rs dc ≡ some (ks, dc')
    → Served ks dc dc'
unfolding controller_turn
controller_turn-Served c [] ks dc dc' e = ground arith
controller_turn-Served c (r ∷ rs) ks dc dc' e = elim (Option-cases (serve c r dc)) [
  | inl h ↦ absurd (ground arith)
  | inr ((k, dc₁), h) ↦ elim (Option-cases (controller_turn c rs dc₁)) [
    | inl g ↦ absurd (ground arith)
    | inr ((ls, dc₂), g) ↦
        let same : k ∷ ls ≡ ks = ground arith in
        let end : dc₂ ≡ dc' = ground arith in
        subst₂ (λ z d. Served z dc d) same end
          (Served-cons k ls dc dc₁ dc₂ (serve-Served c r k dc dc₁ h)
            (controller_turn-Served c rs ls dc₁ dc₂ g))
  ]
]
