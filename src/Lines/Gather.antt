-- ===== src/Lines/Gather.antt =====
-- Where the loop of gather ends a long line.
use agent_session_query.Prelude.{
  ℕ, zero, suc, ◌+◌, ◌-◌, ◌≤◌, ◌<◌, false, Option, some, Option-cases, ◌≡◌, ap, sym, ◌∙◌, arith,
  Bytes, ltb, inl, inr, index_byte, length, take, drop, length-drop, drop-drop,
}
use agent_session_query.Lines.{ends, gather_loop, scan_buf_steady, max_line_bytes}
use agent_session_query.Lines.Split.{line_len, line_len_found, line_len_passed, line_len-le}

-- What os.File.Read does on a file that is not written meanwhile and has no read errors: it reads some
-- bytes, no more than there is room for or than there are left, and none only at the end of the file.
pub record IsFileRead (content : Bytes) (read_count : ℕ → ℕ → Option ℕ) : Type 0 where
  pub count : ℕ → ℕ → ℕ
  pub reads : (offset space : ℕ) → read_count offset space ≡ some (count offset space)
  pub fits : (offset space : ℕ) → count offset space ≤ space
  pub is_there :
      (offset space : ℕ) → offset ≤ length content → offset + count offset space ≤ length content
  pub moves : (offset space : ℕ) → 0 < space → offset < length content → 0 < count offset space

module _ (read_count : ℕ → ℕ → Option ℕ) (content : Bytes)
    (law : IsFileRead content read_count) where
  pub gather_loop_lem :
      (f offset len : ℕ)
      → offset ≤ length content
      → length content - offset < f
      → len + line_len (drop offset content) ≤ max_line_bytes
      → gather_loop read_count content f offset len ≡ ends (len + line_len (drop offset content))
  unfolding gather_loop
  gather_loop_lem zero offset len le fuel short = absurd (omega arith)
  gather_loop_lem (suc f) offset len le fuel short =
      let n = law.count offset scan_buf_steady in
      let there = law.is_there offset scan_buf_steady le in
      let rest = drop offset content in
      elim (Option-cases (index_byte b'\n' (take n rest))) [
        | inr (i, at) ↦
            rw (law.reads offset scan_buf_steady, gather_loop)
              (rw (at, gather_loop) (ap (λ k. ends (len + k)) (sym (line_len_found n i rest at).0)))
        | inl gone ↦
            let passed = line_len_passed n rest (omega (arith, length-drop offset content)) gone in
            let next : line_len rest ≡ n + line_len (drop (offset + n) content) =
              passed ∙ ap (λ d. n + line_len d) (drop-drop n offset content) in
            let end : n ≡ 0 → offset ≡ length content =
              λ (z : n ≡ 0). ground (arith, law.moves offset scan_buf_steady, z) in
            let over : ltb max_line_bytes (len + n) ≡ false = ground (arith, next, short) in
            rw (law.reads offset scan_buf_steady, gather_loop)
              (rw (gone, over, gather_loop)
                (ground (
                  arith,
                  next,
                  short,
                  end,
                  line_len-le rest,
                  length-drop offset content,
                  gather_loop_lem f (offset + n) (len + n),
                )))
      ]
