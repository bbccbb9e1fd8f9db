-- ===== src/Http/Session/Reading.antt =====
-- The reading loop of server::deal, on a header that arrives in pieces.
use new_rojcpp.Prelude.{
  ℕ, ◌+◌, ◌*◌, ◌<◌, ◌≤◌, ◌≡◌, refl, sym, ap, ◌∙◌, ◌⊎◌, inl, inr, List, [], ◌∷◌, ◌++◌, map, Option,
  none, some, true, false, Option-cases, arith, length, append_assoc, length-append, ltb, ◌==◌,
}
use mathlib.Core.Path.{subst}
use new_rojcpp.Buffer.{Allocator, Buffer, empty, left_size}
use new_rojcpp.Buffer.Growth.{bytes, contents, IsValid, left_size_of_IsValid, expand_size-Grown}
use new_rojcpp.Buffer.Append.{write-Appended}
use new_rojcpp.Http.Request.{ParseRet, Phr, Request, parse_header, parsed}
use new_rojcpp.Http.Request.Header.{parse_header_incomplete}
use new_rojcpp.Http.Session.{req_buff}
use new_rojcpp.Http.Session.Deal.{ReadResult, ReadEnd, receive, count, read_loop, after_parse}

abbrev pub limit : ℕ
limit = 1024 * 1024

-- The buffer of a session that has read less than `limit` bytes: none yet, or one of that size.
pub record IsReading (b : Buffer) : Type 0 where
  pub valid : IsValid b
  pub room : ((b.raw ≡ none) × (b.used ≡ 0)) ⊎ (b.tot ≡ limit)

-- The buffer in which the next bytes go.
record Room (b : Buffer) (r : Option Buffer) : Type 0 where
  after : Buffer
  returned : r ≡ some after
  valid : IsValid after
  same : contents after ≡ contents b
  tot_after : after.tot ≡ limit
  used_after : after.used ≡ b.used

is_filled_of : (b : Buffer) → IsValid b → b.tot ≡ limit → empty b ≡ false
unfolding empty
is_filled_of b v full = elim (Option-cases b.raw) [
  | inl null ↦ absurd (omega (arith, v.sized, ap (λ r. length (bytes r)) null))
  | inr (m, e) ↦ rw (empty, e, full) refl
]

module _ (alloc : Allocator) where
  req_buff-Room : (b : Buffer) → IsReading b → b.used < limit → Room b (req_buff alloc b)
  unfolding req_buff empty
  req_buff-Room b h u = elim h.room [
    | inl (null, none_used) ↦
        let no_tot : b.tot ≡ 0 = omega (arith, h.valid.sized, ap (λ r. length (bytes r)) null) in
        let g = expand_size-Grown alloc b limit h.valid (omega arith) in
        let is_empty : empty b ≡ true = rw (empty, null) refl in
        let enough : ltb 0 (left_size g.after) ≡ true =
          ground (arith, left_size_of_IsValid g.after g.valid, g.tot_after, g.used_after) in
        record {
          after = g.after;
          returned = rw (req_buff, is_empty, g.returned, enough) refl;
          valid = g.valid;
          same = g.same;
          tot_after = omega (arith, g.tot_after);
          used_after = g.used_after;
        }
    | inr full ↦
        let is_filled : empty b ≡ false = is_filled_of b h.valid full in
        let enough : ltb 0 (left_size b) ≡ true = ground (arith, left_size_of_IsValid b h.valid) in
        record {
          after = b;
          returned = rw (req_buff, is_filled, enough) refl;
          valid = h.valid;
          same = refl;
          tot_after = full;
          used_after = refl;
        }
  ]

  module _ (phr_parse_request : List ℕ → Phr) where
    -- The pieces are not empty, and the parser wants more after each of them but the last.
    abbrev pub IsSplit : List ℕ → List ℕ → List (List ℕ) → Type 0
    IsSplit text c [] = 0 < length c
    IsSplit text c (d ∷ cs) =
        (0 < length c)
        × ((phr_parse_request (text ++ c)).ret ≡ ParseRet.incomplete)
        × IsSplit (text ++ c) d cs

    abbrev pub whole : List ℕ → List (List ℕ) → List ℕ
    whole c [] = c
    whole c (d ∷ cs) = c ++ whole d cs

    -- The loop, with the pieces in front of `rest`, comes to one parse of a buffer that holds
    -- `text`.
    pub record ParsesOnce (text : List ℕ) (rest : List ReadResult) (nread : ℕ) (end : ReadEnd)
        : Type 0 where
      pub last : Request
      pub reading : IsReading last.buff
      pub held : contents last.buff ≡ text
      pub ends :
          end
          ≡ after_parse alloc phr_parse_request
              (read_loop alloc phr_parse_request rest nread)
              (parse_header phr_parse_request last)

    record Filled (b : Buffer) (c : List ℕ) (r : Option Buffer) : Type 0 where
      after : Buffer
      returned : r ≡ some after
      reading : IsReading after
      held : contents after ≡ contents b ++ c
      used_after : after.used ≡ b.used + length c

    one_read :
        (b b' : Buffer) (c : List ℕ) (nread : ℕ)
        → IsValid b'
        → b'.tot ≡ limit
        → contents b' ≡ contents b
        → b'.used ≡ b.used
        → b.used + length c ≤ limit
        → Filled b c (receive alloc phr_parse_request (ReadResult.got c) nread b')
    unfolding receive
    one_read b b' c nread v full same used h =
        let (w, kept) = write-Appended alloc b' c v (omega arith) (omega arith) in
        record {
          after = w.after;
          returned = w.returned;
          reading = record { valid = w.valid; room = inr (kept ∙ full) };
          held = w.text ∙ ap (λ t. t ++ c) same;
          used_after = w.used_after ∙ ap (λ n. n + length c) used;
        }

    -- The loop on one piece, up to the parser.
    piece :
        (c : List ℕ) (rs : List ReadResult) (nread : ℕ) (req : Request)
        → IsReading req.buff
        → 0 < length c
        → req.buff.used + length c < limit
        → (b : Buffer) × IsReading b
          × (contents b ≡ contents req.buff ++ c)
          × (b.used ≡ req.buff.used + length c)
          × (read_loop alloc phr_parse_request (ReadResult.got c ∷ rs) nread req
              ≡ after_parse alloc phr_parse_request
                  (read_loop alloc phr_parse_request rs (length c))
                  (parse_header phr_parse_request (record req { buff = b })))
    unfolding read_loop count
    piece c rs nread req h p u =
        let m = req_buff-Room req.buff h (omega arith) in
        let r =
          one_read req.buff m.after c nread m.valid m.tot_after m.same m.used_after (omega arith) in
        let more : (length c == 0) ≡ false = ground arith in
        (
          r.after,
          r.reading,
          r.held,
          r.used_after,
          rw (read_loop, m.returned, more, r.returned) refl,
        )

    -- From a valid buffer without memory or with 1 MiB of it, for pieces that are less than 1 MiB
    -- together with what it holds: if none is empty and the parser wants more after each of them
    -- but the last, the reading loop comes to the same as one parse of a valid buffer that holds
    -- all the bytes in order.
    pub read_loop-ParsesOnce :
        (c : List ℕ) (cs : List (List ℕ)) (rest : List ReadResult) (nread : ℕ) (req : Request)
        → IsReading req.buff
        → IsSplit (contents req.buff) c cs
        → req.buff.used + length (whole c cs) < limit
        → (n : ℕ) × ParsesOnce
            (contents req.buff ++ whole c cs)
            rest
            n
            (read_loop alloc phr_parse_request (map ReadResult.got (c ∷ cs) ++ rest) nread req)
    unfolding parsed after_parse
    read_loop-ParsesOnce c [] rest nread req h s u =
        let (b, reading, held, _, ends) = piece c rest nread req h s u in
        (
          length c,
          record { last = record req { buff = b }; reading = reading; held = held; ends = ends },
        )
    read_loop-ParsesOnce c (d ∷ cs) rest nread req h s u =
        let (b, reading, held, used, ends) =
          piece c (map ReadResult.got (d ∷ cs) ++ rest) nread req h s.0
            (omega (arith, length-append c (whole d cs))) in
        let wants : (phr_parse_request (contents b)).ret ≡ ParseRet.incomplete =
          ap (λ t. (phr_parse_request t).ret) held ∙ s.1 in
        let next : Request = parsed phr_parse_request (record req { buff = b }) in
        let (n, o) =
          read_loop-ParsesOnce d cs rest (length c) next reading
            (subst (λ t. IsSplit t d cs) (sym held) s.2)
            (omega (arith, used, length-append c (whole d cs))) in
        let loop =
          read_loop alloc phr_parse_request (map ReadResult.got (d ∷ cs) ++ rest) (length c) in
        (
          n,
          record {
            last = o.last;
            reading = o.reading;
            held =
                o.held
                ∙ ap (λ t. t ++ whole d cs) held
                ∙ append_assoc (contents req.buff) c (whole d cs);
            ends =
                ends
                ∙ ap (after_parse alloc phr_parse_request loop)
                    (parse_header_incomplete phr_parse_request (record req { buff = b }) wants)
                ∙ o.ends;
          },
        )
