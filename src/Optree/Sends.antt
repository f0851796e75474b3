-- ===== src/Optree/Sends.antt =====
-- What the write-back of one op sends: its changed fields, in order.
use go_perl.Prelude.{
  ℕ, ◌%◌, ◌^◌, Bool, true, false, ◌||◌, Option, some, List, [], ◌∷◌, ◌++◌, ◌==◌, if◌then◌else◌, ◌≡◌,
  ◌≢◌, ◌⊎◌, refl, sym, ap, ◌∙◌, arith,
}
use go_perl.Bridge.{Guest, World}
use go_perl.Optree.{
  Op, OpBase, op_setfield, op_tok32, Sent, sent, write_field, write_fields, sibparent_selector,
  differs, opf_next, opf_first, opf_last, opf_other, opf_targ, opf_type, opf_flags, opf_private,
}

-- A selector and its value.
abbrev pub Change : Type 0
Change = ℕ × ℕ

abbrev pub only_if : Bool → Change → List Change
only_if true c = c ∷ []
only_if false c = []

-- The token of an op pointer, 0 for null.
abbrev pub token : (ℕ → Op) → ℕ → ℕ
token ops kid = if kid == 0 then 0 else (ops kid).gop % 2 ^ 32

-- The fields in which an op differs from its baseline.
abbrev pub changes : (ℕ → Op) → Op → OpBase → List Change
changes ops o b =
    only_if (differs b.op_next o.op_next) (opf_next, token ops o.op_next)
    ++ only_if (differs b.op_sibparent o.op_sibparent || differs b.op_moresib o.op_moresib)
        (sibparent_selector o, token ops o.op_sibparent)
    ++ only_if (differs b.op_first o.op_first) (opf_first, token ops o.op_first)
    ++ only_if (differs b.op_last o.op_last) (opf_last, token ops o.op_last)
    ++ only_if (differs b.op_other o.op_last) (opf_other, token ops o.op_last)
    ++ only_if (differs b.op_targ o.op_targ) (opf_targ, o.op_targ % 2 ^ 32)
    ++ only_if (differs b.op_type o.op_type) (opf_type, o.op_type)
    ++ only_if (differs b.op_flags o.op_flags) (opf_flags, o.op_flags)
    ++ only_if (differs b.op_private o.op_private) (opf_private, o.op_private)

-- One OP_SET for each change, in order.
abbrev pub send_all : Guest → ℕ → List Change → World → World
send_all g gop [] w = w
send_all g gop ((sel, val) ∷ cs) w = send_all g gop cs (op_setfield g gop sel val w)

-- A null pointer, or an op that the interpreter has.
abbrev pub HasToken : (ℕ → Op) → ℕ → Type 0
HasToken ops kid = (kid ≡ 0) ⊎ ((ops kid).gop ≢ 0)

op_tok32-HasToken :
    (ops : ℕ → Op) (kid : ℕ) → HasToken ops kid → op_tok32 ops kid ≡ some (token ops kid)
unfolding op_tok32
op_tok32-HasToken ops kid h = ground arith

send_all-append :
    (g : Guest) (gop : ℕ) (cs ds : List Change) (w : World)
    → send_all g gop (cs ++ ds) w ≡ send_all g gop ds (send_all g gop cs w)
send_all-append g gop [] ds w = refl
send_all-append g gop ((sel, val) ∷ cs) ds w =
    send_all-append g gop cs ds (op_setfield g gop sel val w)

write_one :
    (g : Guest) (gop : ℕ) (c : Bool) (sel v : ℕ) (w : World)
    → write_field g gop c sel (some v) (sent w) ≡ sent (send_all g gop (only_if c (sel, v)) w)
unfolding write_field
write_one g gop true sel v w = refl
write_one g gop false sel v w = refl

-- A result that has made some changes, and nothing else.
record HasSent (g : Guest) (gop : ℕ) (w : World) (cs : List Change) (r : Sent) : Type 0 where
  result : r ≡ sent (send_all g gop cs w)

HasSent-next :
    {g : Guest} {gop : ℕ} {w : World} {cs : List Change} {r : Sent} (c : Bool) (sel : ℕ) {v : ℕ}
    {o : Option ℕ}
    → o ≡ some v
    → HasSent g gop w cs r
    → HasSent g gop w (cs ++ only_if c (sel, v)) (write_field g gop c sel o r)
HasSent-next {g = g} {gop = gop} {w = w} {cs = cs} c sel {v = v} is h = record {
  result =
      rw (is, h.result)
        (write_one g gop c sel v (send_all g gop cs w)
          ∙ ap sent (sym (send_all-append g gop cs (only_if c (sel, v)) w)));
}

-- The write-back of an op sends one OP_SET for each field that differs from the baseline, in the
-- order of the fields, with the token of the op linked to or with the value, and nothing else. Each
-- op linked to is one that the interpreter has.
pub write_fields_lem :
    (g : Guest) (ops : ℕ → Op) (o : Op) (b : OpBase) (w : World)
    → HasToken ops o.op_next
    → HasToken ops o.op_sibparent
    → HasToken ops o.op_first
    → HasToken ops o.op_last
    → write_fields g ops o b w ≡ sent (send_all g o.gop (changes ops o b) w)
unfolding write_fields
write_fields_lem g ops o b w next sibparent first last =
    let last_token = op_tok32-HasToken ops o.op_last last in
    let start : HasSent g o.gop w [] (sent w) = record { result = refl } in
    let links = HasSent-next (differs b.op_other o.op_last) opf_other last_token (
      HasSent-next (differs b.op_last o.op_last) opf_last last_token (
        HasSent-next (differs b.op_first o.op_first) opf_first
          (op_tok32-HasToken ops o.op_first first)
          (HasSent-next (differs b.op_sibparent o.op_sibparent || differs b.op_moresib o.op_moresib)
            (sibparent_selector o) (op_tok32-HasToken ops o.op_sibparent sibparent)
            (HasSent-next (differs b.op_next o.op_next) opf_next
              (op_tok32-HasToken ops o.op_next next) start)))) in
    let all = HasSent-next (differs b.op_private o.op_private) opf_private refl (
      HasSent-next (differs b.op_flags o.op_flags) opf_flags refl (
        HasSent-next (differs b.op_type o.op_type) opf_type refl
          (HasSent-next (differs b.op_targ o.op_targ) opf_targ refl links))) in
    all.result
