-- ===== src/BasisEdgeReader/Row.antt =====
-- BasisEdgeReader.cpp, `TransferData`: what goes out for a row.
use mathlib.Core.List.{append-nil}
use mathlib.Core.Path.{subst}
use gcnsim_awb.Prelude.{
  ℕ, zero, suc, ◌+◌, ◌-◌, ◌*◌, ◌%◌, ◌^◌, ◌<◌, ◌≡◌, refl, true, false, ◌==◌, List, [], ◌∷◌, ◌++◌,
  some, is_empty, get_elem?, get_elem?-append, length, length-append, arith, sym, ◌∙◌, ap, ap₂,
}
use gcnsim_awb.Prelude.Words.{sub64, u64_of_int}
use gcnsim_awb.Config.{Config}
use gcnsim_awb.EdgeReader.{ErData}
use gcnsim_awb.BasisEdgeReader.{
  BasisEdgeReader, pull, advance, end_column, note_empty, data_of, transfer_data,
}
use gcnsim_awb.BasisEdgeReader.Sending.{
  transfers, times, sent, IsSending, IsAmid, IsRowEnd, AfterColumn, one_left, transfers-append,
}

module _ (c : Config) (more : List ℕ) (row start : ℕ) (small : c.w_fold < 2 ^ 31) where
  -- One call, for a column that has been taken out.
  emit : BasisEdgeReader → BasisEdgeReader
  emit s = note_empty (end_column c (advance c s))

  emit-IsAmid :
      (gone : List ℕ) (e : ℕ) (es : List ℕ) (f : ℕ) (s : BasisEdgeReader)
      → IsAmid gone e es more row start f s
      → f + 1 < c.w_fold
      → IsAmid gone e es more row start (f + 1) (emit s)
  unfolding emit note_empty end_column advance
  emit-IsAmid gone e es f s a h =
      let again : (u64_of_int ((s.pre_w_fold + 1) % 2 ^ 32) == c.w_fold) ≡ false =
        ground (arith, a.fold) in
      record {
        fold = ground (arith, again, a.fold);
        kept = ground (arith, again, a.kept);
        waiting = ground (arith, again, a.waiting);
        left = ground (arith, again, a.left);
        all = ground (arith, again, a.all);
        row_same = ground (arith, again, a.row_same);
        start_same = ground (arith, again, a.start_same);
      }

  emit-IsSending :
      (gone : List ℕ) (e e' : ℕ) (es : List ℕ) (f : ℕ) (s : BasisEdgeReader)
      → IsAmid gone e (e' ∷ es) more row start f s
      → f + 1 ≡ c.w_fold
      → length es + 2 < 2 ^ 64
      → IsSending (gone ++ e ∷ []) (e' ∷ es) more row start (emit s)
  unfolding emit note_empty end_column advance
  emit-IsSending gone e e' es f s a h few =
      let done : (u64_of_int ((s.pre_w_fold + 1) % 2 ^ 32) == c.w_fold) ≡ true =
        ground (arith, a.fold) in
      let more_left : (s.remain_col_num == 1) ≡ false = ground (arith, a.left) in
      let size = length-append gone (e ∷ []) in
      record {
        fold = ground (arith, done, more_left);
        kept = ground (arith, done, more_left, a.kept);
        waiting = ground (arith, done, more_left, a.waiting);
        left = ground (arith, done, more_left, a.left);
        all = ground (arith, done, more_left, a.all, size);
        row_same = ground (arith, done, more_left, a.row_same);
        start_same = ground (arith, done, more_left, a.start_same);
      }

  emit-IsRowEnd :
      (gone : List ℕ) (e f : ℕ) (s : BasisEdgeReader)
      → IsAmid gone e [] more row start f s
      → f + 1 ≡ c.w_fold
      → IsRowEnd more (emit s)
  unfolding emit note_empty end_column advance
  emit-IsRowEnd gone e f s a h =
      let done : (u64_of_int ((s.pre_w_fold + 1) % 2 ^ 32) == c.w_fold) ≡ true =
        ground (arith, a.fold) in
      let last : (s.remain_col_num == 1) ≡ true = ground (arith, a.left) in
      record {
        fold = ground (arith, done, last);
        kept = ground (arith, done, last);
        waiting = ground (arith, done, last, a.waiting);
        left = ground (arith, done, last);
      }

  call_of :
      (s s' : BasisEdgeReader) (col : ℕ)
      → pull s ≡ some s'
      → get_elem? s'.ev (sub64 s'.col_num_archive s'.remain_col_num) ≡ some col
      → transfer_data c s
        ≡ some (
          data_of c s'.pre_row col s'.pre_w_fold s'.pre_w_fold_start (s'.remain_col_num == 1),
          emit s',
        )
  unfolding transfer_data emit
  call_of s s' col p found = rw (p, found) refl

  call-emit :
      (gone : List ℕ) (e : ℕ) (es : List ℕ) (f : ℕ) (s s' : BasisEdgeReader)
      → pull s ≡ some s'
      → IsAmid gone e es more row start f s'
      → length gone + suc (length es) < 2 ^ 64
      → transfer_data c s ≡ some (data_of c row e f start (is_empty es), emit s')
  call-emit gone e es f s s' p a few =
      let place : sub64 s'.col_num_archive s'.remain_col_num ≡ length gone =
        omega (arith, a.all, a.left) in
      let found : get_elem? s'.ev (sub64 s'.col_num_archive s'.remain_col_num) ≡ some e =
        ap₂ (λ l k. get_elem? l k) a.kept place ∙ get_elem?-append gone e [] in
      let last : (s'.remain_col_num == 1) ≡ is_empty es = ap (λ n. n == 1) a.left ∙ one_left es in
      call_of s s' e p found
      ∙ ap (λ d. some (d, emit s'))
          (ap₂ (λ r g. data_of c r e g s'.pre_w_fold_start (s'.remain_col_num == 1)) a.row_same
              a.fold
            ∙ ap₂ (λ b l. data_of c row e f b l) a.start_same last)

  pull-again :
      (gone : List ℕ) (e : ℕ) (es : List ℕ) (f : ℕ) (s : BasisEdgeReader)
      → IsAmid gone e es more row start f s
      → 0 < f
      → pull s ≡ some s
  unfolding pull
  pull-again gone e es f s a h = ground (arith, a.fold)

  pull-first :
      (gone : List ℕ) (e : ℕ) (es : List ℕ) (s : BasisEdgeReader)
      → IsSending gone (e ∷ es) more row start s
      → (s' : BasisEdgeReader) × (pull s ≡ some s') × IsAmid gone e es more row start 0 s'
  unfolding pull
  pull-first gone e es s a = (
    record s { ev = s.ev ++ e ∷ []; eq = es ++ more },
    ground (arith, a.fold, a.waiting),
    record {
      fold = a.fold;
      kept = ap (λ l. l ++ e ∷ []) a.kept;
      waiting = refl;
      left = a.left;
      all = a.all;
      row_same = a.row_same;
      start_same = a.start_same;
    },
  )

  transfers-first :
      (k : ℕ) (s s₁ t : BasisEdgeReader) (d : ErData) (ds : List ErData)
      → transfer_data c s ≡ some (d, s₁)
      → transfers c k s₁ ≡ some (ds, t)
      → transfers c (suc k) s ≡ some (d ∷ ds, t)
  transfers-first k s s₁ t d ds h r = rw (h, r) refl

  last_call :
      (gone : List ℕ) (e : ℕ) (es : List ℕ) (f : ℕ) (s' : BasisEdgeReader)
      → IsAmid gone e es more row start f s'
      → f + 1 ≡ c.w_fold
      → length gone + suc (length es) < 2 ^ 64
      → AfterColumn (gone ++ e ∷ []) es more row start (emit s')
  last_call gone e [] f s' a h few = emit-IsRowEnd gone e f s' a h
  last_call gone e (e' ∷ es) f s' a h few = emit-IsSending gone e e' es f s' a h (omega arith)

  -- The calls for a column, from the one with the fold `f` on.
  column :
      (gone : List ℕ) (e : ℕ) (es : List ℕ) (k f : ℕ) (s s' : BasisEdgeReader)
      → f + suc k ≡ c.w_fold
      → pull s ≡ some s'
      → IsAmid gone e es more row start f s'
      → length gone + suc (length es) < 2 ^ 64
      → (t : BasisEdgeReader) × (transfers c (suc k) s
          ≡ some (times c row e start (is_empty es) (suc k), t))
        × AfterColumn (gone ++ e ∷ []) es more row start t
  column gone e es zero f s s' w p a few =
      let fold : f ≡ c.w_fold - 1 = omega arith in
      let call = call-emit gone e es f s s' p a few in
      (
        emit s',
        transfers-first 0 s (emit s') (emit s') (data_of c row e (c.w_fold - 1) start (is_empty es))
            [] (call ∙ ap (λ g. some (data_of c row e g start (is_empty es), emit s')) fold) refl,
        last_call gone e es f s' a (omega arith) few,
      )
  column gone e es (suc k) f s s' w p a few =
      let fold : f ≡ c.w_fold - suc (suc k) = omega arith in
      let call = call-emit gone e es f s s' p a few in
      let a' = emit-IsAmid gone e es f s' a (omega arith) in
      let (t, run, rest) =
        column gone e es k (f + 1) (emit s') (emit s') (omega arith)
          (pull-again gone e es (f + 1) (emit s') a' (omega arith)) a' few in
      (
        t,
        transfers-first (suc k) s (emit s') t
            (data_of c row e (c.w_fold - suc (suc k)) start (is_empty es))
            (times c row e start (is_empty es) (suc k))
            (call ∙ ap (λ g. some (data_of c row e g start (is_empty es), emit s')) fold) run,
        rest,
      )

  whole_column :
      (gone : List ℕ) (e : ℕ) (es : List ℕ) (s : BasisEdgeReader)
      → 0 < c.w_fold
      → IsSending gone (e ∷ es) more row start s
      → length gone + suc (length es) < 2 ^ 64
      → (t : BasisEdgeReader) × (transfers c c.w_fold s
          ≡ some (times c row e start (is_empty es) c.w_fold, t))
        × AfterColumn (gone ++ e ∷ []) es more row start t
  whole_column gone e es s pos a few =
      let whole : suc (c.w_fold - 1) ≡ c.w_fold = omega arith in
      let (s', p, a') = pull-first gone e es s a in
      let (t, run, rest) = column gone e es (c.w_fold - 1) 0 s s' (omega arith) p a' few in
      (
        t,
        subst (λ n. transfers c n s ≡ some (times c row e start (is_empty es) n, t)) whole run,
        rest,
      )

  -- With `w_fold` from 1 on and below 2^31: a row has columns left that wait in the queue, none of them out
  -- yet, and together with the columns of the row that are out they are fewer than 2^64. In as many calls
  -- as there are columns left times `w_fold`, each of them goes out `w_fold` times with the folds from 0
  -- on, in the order of the queue; only the last column is marked as the end of the row; and then the row
  -- is done and the queue behind it untouched.
  pub transfers-sent :
      (gone : List ℕ) (e : ℕ) (es : List ℕ) (s : BasisEdgeReader)
      → 0 < c.w_fold
      → IsSending gone (e ∷ es) more row start s
      → length gone + suc (length es) < 2 ^ 64
      → (t : BasisEdgeReader) × (transfers c (suc (length es) * c.w_fold) s
          ≡ some (sent c row start (e ∷ es), t))
        × IsRowEnd more t
  transfers-sent gone e [] s pos a few =
      let (t, run, rest) = whole_column gone e [] s pos a few in
      let one : c.w_fold ≡ 1 * c.w_fold = omega arith in
      (
        t,
        subst (λ n. transfers c n s ≡ some (sent c row start (e ∷ []), t)) one
            (run ∙ ap (λ l. some (l, t)) (sym (append-nil (times c row e start true c.w_fold)))),
        rest,
      )
  transfers-sent gone e (e' ∷ es) s pos a few =
      let (t, run, rest) = whole_column gone e (e' ∷ es) s pos a few in
      let (u, run', done) =
        transfers-sent (gone ++ e ∷ []) e' es t pos rest
          (omega (arith, length-append gone (e ∷ []))) in
      let count : c.w_fold + suc (length es) * c.w_fold ≡ suc (suc (length es)) * c.w_fold =
        grind arith in
      (
        u,
        subst (λ n. transfers c n s ≡ some (sent c row start (e ∷ e' ∷ es), u)) count
            (transfers-append c c.w_fold (suc (length es) * c.w_fold) s t u
              (times c row e start false c.w_fold) (sent c row start (e' ∷ es)) run run'),
        done,
      )
