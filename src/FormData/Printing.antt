-- ===== src/FormData/Printing.antt =====
-- What `toBuffer` prints for the form data of a message.
use mathlib.Core.List.{append_assoc, append-nil}
use testcafe_hammerhead.Common.{
  ◌≡◌, refl, ap, sym, ◌∙◌, false, List, [], ◌∷◌, ◌++◌, All, if-elim, clash,
}
use testcafe_hammerhead.Common.Chars.{Text, codes, to_lower, text_eq}
use testcafe_hammerhead.FormData.Lines.{crlf, concat, append_line, join, lines_after}
use testcafe_hammerhead.FormData.Entry.{
  Header, FormDataEntry, set, set_parts, parse_content_disposition,
}
use testcafe_hammerhead.FormData.{opened}
use testcafe_hammerhead.FormData.Messages.{append_all}

-- Lines with the separator behind each.
abbrev pub terminated : List Text → Text
terminated [] = []
terminated (line ∷ lines) = line ++ 13 ∷ 10 ∷ terminated lines

pub concat-append : (xs ys : List Text) → concat (xs ++ ys) ≡ concat xs ++ concat ys
concat-append [] ys = refl
concat-append (x ∷ xs) ys =
    ap (λ t. x ++ t) (concat-append xs ys) ∙ sym (append_assoc x (concat xs) (concat ys))

pub terminated-append : (xs ys : List Text) → terminated (xs ++ ys) ≡ terminated xs ++ terminated ys
terminated-append [] ys = refl
terminated-append (x ∷ xs) ys =
    ap (λ t. x ++ 13 ∷ 10 ∷ t) (terminated-append xs ys)
    ∙ sym (append_assoc x (13 ∷ 10 ∷ terminated xs) (terminated ys))

lines_after_then_end : (ls : List Text) → lines_after ls ++ crlf ≡ 13 ∷ 10 ∷ terminated ls
lines_after_then_end [] = refl
lines_after_then_end (l ∷ ls) =
    ap (λ t. 13 ∷ 10 ∷ t)
      (append_assoc l (lines_after ls) crlf ∙ ap (λ t. l ++ t) (lines_after_then_end ls))

pub join_then_end : (l : Text) (ls : List Text) → join (l ∷ ls) ++ crlf ≡ terminated (l ∷ ls)
join_then_end l ls =
    append_assoc l (lines_after ls) crlf ∙ ap (λ t. l ++ t) (lines_after_then_end ls)

lines_after-append :
    (xs : List Text) (y : Text) (ys : List Text)
    → lines_after (xs ++ y ∷ ys) ≡ 13 ∷ 10 ∷ (terminated xs ++ join (y ∷ ys))
lines_after-append [] y ys = refl
lines_after-append (x ∷ xs) y ys =
    ap (λ t. 13 ∷ 10 ∷ t)
      (ap (λ t. x ++ t) (lines_after-append xs y ys)
        ∙ sym (append_assoc x (13 ∷ 10 ∷ terminated xs) (join (y ∷ ys))))

pub join-append :
    (xs : List Text) (y : Text) (ys : List Text)
    → join (xs ++ y ∷ ys) ≡ terminated xs ++ join (y ∷ ys)
join-append [] y ys = refl
join-append (x ∷ xs) y ys =
    ap (λ t. x ++ t) (lines_after-append xs y ys)
    ∙ sym (append_assoc x (13 ∷ 10 ∷ terminated xs) (join (y ∷ ys)))

concat-append_all :
    (c : Text) (cs ls : List Text)
    → concat (append_all (c ∷ cs) ls) ≡ concat (c ∷ cs) ++ lines_after ls
unfolding append_line
concat-append_all c cs [] = sym (append-nil (concat (c ∷ cs)))
concat-append_all c cs (l ∷ ls) =
    concat-append_all c (cs ++ crlf ∷ l ∷ []) ls
    ∙ ap (λ t. t ++ lines_after ls)
        (concat-append (c ∷ cs) (crlf ∷ l ∷ [])
          ∙ ap (λ t. concat (c ∷ cs) ++ 13 ∷ 10 ∷ t) (append-nil l))
    ∙ append_assoc (concat (c ∷ cs)) (13 ∷ 10 ∷ l) (lines_after ls)

pub concat_of_lines : (l : Text) (ls : List Text) → concat (append_all [] (l ∷ ls)) ≡ join (l ∷ ls)
unfolding append_line
concat_of_lines l ls = concat-append_all l [] ls ∙ ap (λ t. t ++ lines_after ls) (append-nil l)

opened-append_all :
    (c : Text) (cs ls : List Text)
    → opened (append_all (c ∷ cs) ls) ≡ append_all (c ∷ cs) ls ++ crlf ∷ []
unfolding append_line
opened-append_all c cs [] = refl
opened-append_all c cs (l ∷ ls) = opened-append_all c (cs ++ crlf ∷ l ∷ []) ls

pub preamble_printed : (ls : List Text) → concat (opened (append_all [] ls)) ≡ terminated ls
unfolding append_line
preamble_printed [] = refl
preamble_printed (l ∷ ls) =
    ap concat (opened-append_all l [] ls)
    ∙ concat-append (append_all (l ∷ []) ls) (crlf ∷ [])
    ∙ ap (λ t. t ++ crlf) (concat_of_lines l ls)
    ∙ join_then_end l ls

abbrev pub stored : Text × Text → Text × Header
stored h = (to_lower h.0, record { raw_name = h.0; value = h.1 })

pub set-append :
    (name : Text) (header : Header) (l : List (Text × Header))
    → All (λ p. text_eq p.0 name ≡ false) l
    → set name header l ≡ l ++ (name, header) ∷ []
unfolding set
set-append name header [] h = refl
set-append name header ((key, old) ∷ l) (h, h') =
    if-elim (λ r. r ≡ (key, old) ∷ (l ++ (name, header) ∷ [])) (text_eq key name) _ _
      (λ e. absurd (clash (text_eq key name) e h))
      (λ e. ap (λ r. (key, old) ∷ r) (set-append name header l h'))

pub set_parts_keeps :
    (h : Text × Text) (e : FormDataEntry)
    → ((set_parts h.0 h.1 e).headers ≡ set (to_lower h.0) (stored h).1 e.headers)
      × ((set_parts h.0 h.1 e).body ≡ e.body)
unfolding set_parts parse_content_disposition
set_parts_keeps h e =
    let s = record e { headers = set (to_lower h.0) (stored h).1 e.headers } in
    if-elim (λ r. (r.headers ≡ s.headers) × (r.body ≡ e.body))
      (text_eq (to_lower h.0) (codes "content-disposition")) (parse_content_disposition h.1 s) s
      (λ x. (refl, refl)) (λ x. (refl, refl))
