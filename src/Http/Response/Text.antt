-- ===== src/Http/Response/Text.antt =====
-- What a response sends once its text is set.
use new_rojcpp.Prelude.{
  joined, ℕ, ◌+◌, ◌^◌, ◌<◌, ◌≡◌, refl, sym, ap, ◌∙◌, List, [], ◌∷◌, ◌++◌, Option, some, true, arith,
  ltb, take, ◌%◌, ◌≤◌, length, length-append, append_assoc, append-nil,
}
use new_rojcpp.Prelude.Text.{codes}
use new_rojcpp.Buffer.{Buffer, Allocator, clear}
use new_rojcpp.Buffer.Growth.{IsValid, contents}
use new_rojcpp.Buffer.Append.{Appended, append_buff_grown}
use new_rojcpp.Http.Response.{
  Response, append_each, with_parts, set_status_and_content, set_status_and_literal, rep_server,
  number_bytes, num_to_string, until_zero,
}
use new_rojcpp.Http.Response.Status.{StatusType, ContentType, to_rep_string, to_content_type_str}

-- `r` is `res` with the text `text` in its buffer, and nothing else changed.
pub record Holds (res : Response) (text : List ℕ) (r : Option Response) : Type 0 where
  pub buff : Buffer
  pub returned : r ≡ some (record res { buff = buff })
  pub valid : IsValid buff
  pub held : contents buff ≡ text

-- The status line, the headers, the blank line and the body.
abbrev pub literal_text : StatusType → ContentType → List ℕ → List ℕ
literal_text status type content =
    codes (to_rep_string status)
    ++ (codes (to_content_type_str type)
        ++ (rep_server ++ (num_to_string (length content) ++ (codes "\r\n" ++ content))))

abbrev pub content_text : StatusType → ContentType → List ℕ → List ℕ
content_text status type str =
    codes (to_rep_string status)
    ++ (codes (to_content_type_str type)
        ++ (rep_server
            ++ (codes "content_length: "
                ++ (number_bytes (length str) ++ (codes "\r\n\r\n" ++ str)))))

take_all : (xs : List ℕ) → take (length xs) xs ≡ xs
take_all [] = refl
take_all (x ∷ xs) = ap (◌∷◌ x) (take_all xs)

module _ (alloc : Allocator) where
  append_each-Appended :
      (ps : List (List ℕ)) (b : Buffer)
      → IsValid b
      → b.used + length (joined ps) < 2 ^ 60
      → b.tot < 2 ^ 62
      → Appended b (joined ps) (append_each alloc ps b)
  unfolding append_each
  append_each-Appended [] b v h k = record {
    after = b;
    returned = refl;
    valid = v;
    text = sym (append-nil (contents b));
    used_after = omega arith;
  }
  append_each-Appended (p ∷ ps) b v h k =
      let (w, limit) =
        append_buff_grown alloc b p v (omega (arith, length-append p (joined ps))) k in
      let r =
        append_each-Appended ps w.after w.valid
          (omega (arith, length-append p (joined ps), w.used_after))
          (ground (arith, limit, length-append p (joined ps))) in
      record {
        after = r.after;
        returned = rw (w.returned, append_each) r.returned;
        valid = r.valid;
        text = r.text ∙ ap (λ t. t ++ joined ps) w.text ∙ append_assoc (contents b) p (joined ps);
        used_after = omega (arith, r.used_after, w.used_after, length-append p (joined ps));
      }

  with_parts-Holds :
      (ps : List (List ℕ)) (text : List ℕ) (res : Response)
      → joined ps ≡ text
      → IsValid res.buff
      → length text < 2 ^ 60
      → res.buff.tot < 2 ^ 62
      → Holds res text (with_parts alloc ps res)
  unfolding with_parts clear
  with_parts-Holds ps text res e v h k =
      let r =
        append_each-Appended ps (clear res.buff)
          (record { sized = v.sized; within = omega arith; bounded = v.bounded })
          (omega (arith, ap length e)) k in
      record {
        buff = r.after;
        returned = rw (r.returned, with_parts);
        valid = r.valid;
        held = r.text ∙ e;
      }

  -- A text shorter than 2 ^ 31 is appended as it is.
  whole_content :
      (status : StatusType) (type : ContentType) (str : List ℕ) (res : Response)
      → length str < 2 ^ 31
      → set_status_and_content alloc status type str res
        ≡ with_parts alloc
            (codes (to_rep_string status)
              ∷ codes (to_content_type_str type)
              ∷ rep_server
              ∷ codes "content_length: "
              ∷ number_bytes (length str)
              ∷ codes "\r\n\r\n"
              ∷ str
              ∷ [])
            res
  unfolding set_status_and_content
  whole_content status type str res h =
      let int : length str % 2 ^ 32 ≡ length str = omega (arith, h) in
      let positive : ltb (length str) (2 ^ 31) ≡ true = ground (arith, h) in
      rw (set_status_and_content, int, positive, int, take_all str) refl

  -- The body is a part of the text.
  content_text-body :
      (status : StatusType) (type : ContentType) (str : List ℕ)
      → length str ≤ length (content_text status type str)
  content_text-body status type str = omega (
    arith,
    length-append (codes (to_rep_string status)) (
        codes (to_content_type_str type)
        ++ (rep_server
            ++ (codes "content_length: "
                ++ (number_bytes (length str) ++ (codes "\r\n\r\n" ++ str))))),
    length-append (codes (to_content_type_str type)) (
        rep_server
        ++ (codes "content_length: " ++ (number_bytes (length str) ++ (codes "\r\n\r\n" ++ str)))),
    length-append rep_server
        (codes "content_length: " ++ (number_bytes (length str) ++ (codes "\r\n\r\n" ++ str))),
    length-append (number_bytes (length str)) (codes "\r\n\r\n" ++ str),
  )

  -- On a response with a valid buffer below 2 ^ 62, for a text below 2 ^ 31, so that the length of the
  -- body is an `int`: the overload for a `std::string` returns, changes nothing but the buffer, and leaves exactly this text in it,
  -- whatever it held: status line, content type, server, "content_length: " with the values of the
  -- decimal digits, blank line and body.
  pub set_status_and_content-Holds :
      (status : StatusType) (type : ContentType) (str : List ℕ) (res : Response)
      → IsValid res.buff
      → length (content_text status type str) < 2 ^ 31
      → res.buff.tot < 2 ^ 62
      → Holds res (content_text status type str) (set_status_and_content alloc status type str res)
  set_status_and_content-Holds status type str res v h k =
      let short : length str < 2 ^ 31 = omega (arith, content_text-body status type str, h) in
      let r =
        with_parts-Holds
          (codes (to_rep_string status)
            ∷ codes (to_content_type_str type)
            ∷ rep_server
            ∷ codes "content_length: "
            ∷ number_bytes (length str)
            ∷ codes "\r\n\r\n"
            ∷ str
            ∷ [])
          (content_text status type str) res (rw (append-nil str) refl) v (omega (arith, h)) k in
      record {
        buff = r.buff;
        returned = whole_content status type str res short ∙ r.returned;
        valid = r.valid;
        held = r.held;
      }

  -- On a response with a valid buffer below 2 ^ 62, for a literal without a zero byte and a text
  -- below 2 ^ 60: the overload for a literal returns, changes nothing but the buffer, and leaves
  -- exactly this text in it: status line, content type, server, "Content-Length: " with the
  -- decimal length, blank line and body.
  pub set_status_and_literal-Holds :
      (status : StatusType) (type : ContentType) (content : List ℕ) (res : Response)
      → IsValid res.buff
      → until_zero content ≡ content
      → length (literal_text status type content) < 2 ^ 60
      → res.buff.tot < 2 ^ 62
      → Holds res
          (literal_text status type content)
          (set_status_and_literal alloc status type content res)
  unfolding set_status_and_literal
  set_status_and_literal-Holds status type content res v z h k =
      with_parts-Holds _ (literal_text status type content) res (rw (z, append-nil content) refl) v
        h k
