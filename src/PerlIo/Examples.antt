-- ===== src/PerlIo/Examples.antt =====
-- The theorems on the layers at a layer whose Fill is the author's.
use go_perl.Prelude.{
  ℕ, ◌+◌, ◌≡◌, ◌⊎◌, refl, Option, none, some, List, [], ◌∷◌, All, get_elem?, take,
}
use go_perl.Bridge.{Guest, Call, guest_mem, emit, perlio_def}
use go_perl.Bridge.Op.{perlio_def_layer}
use go_perl.Flush.{do_op}
use go_perl.Save.Examples.{quiet}
use go_perl.Format.{Printf}
use go_perl.PerlIo.{SlotName, Method, Tab, Shadow, Io, Hooks, ran, custom, buf_pushed}
use go_perl.PerlIo.Define.{
  define_layer, define_layer_lem, defined, refused, required, IsStock, mask_of,
}
use go_perl.PerlIo.Shadows.Law.{Served, iol_shadow-Served}
use go_perl.PerlIo.Invoke.{perlio_invoke}
use go_perl.PerlIo.Invoke.Answer.{Answered, perlio_invoke-Answered}

abbrev slots : SlotName → Option Method
slots SlotName.fill = some (custom 7)
slots SlotName.pushed = some buf_pushed
slots _ = none

abbrev strict : Tab
strict = record { name = 115 ∷ []; size = 80; kind = 10; slot = slots }

abbrev shadow : Shadow
shadow = record {
  address = 4096;
  ltok = 5;
  ff = 6;
  layer = record {
    base = record { tab = strict; flags = 0; err = 0 };
    buf = 0;
    last = 0;
    ptr = 0;
    posn = 0;
    bufsiz = 0;
    fields = [];
  };
  tail = record { tab = strict; flags = 0; err = 0 };
}

abbrev io : Io
io = record { world = quiet; gbuf = 0; hbuf = 0; jb = 0; cur_frame = 3; failed = 0; err = [] }

-- The interpreter's memory stands at 65536; every other call is answered by 0.
abbrev pub reply : Call → ℕ
reply (guest_mem gp) = 65536 + gp
reply _ = 0

abbrev pub placed : Guest
placed = record { answer = λ log call. reply call }

define_layer_lem_example :
    let named = record quiet { log = emit (perlio_def strict.name) quiet.log } in
    let told = do_op placed perlio_def_layer 0 (mask_of strict) strict.name named in
    (All (IsStock strict) required
      × (define_layer placed strict io ≡ defined (record io { world = told.1 })))
    ⊎ ((i : ℕ) × (slot : SlotName) × (get_elem? required i ≡ some slot)
        × ¬ (IsStock strict slot)
        × All (IsStock strict) (take i required)
        × (define_layer placed strict io ≡ refused slot io))
define_layer_lem_example = define_layer_lem placed strict io

iol_shadow-Served_example : Served 8192 strict 9 1 (shadow ∷ [])
iol_shadow-Served_example = iol_shadow-Served 8192 strict 9 1 (shadow ∷ []) (tt, tt)

-- The author's function reports success and leaves everything as it is.
abbrev idle : Hooks
idle = λ n h a s i. ran 0 s i

abbrev bare : Printf
bare = record {
  decimal = λ n. [];
  number = λ spec type n. [];
  string = λ spec s. s;
  sv_text = λ log tok. none;
}

-- A FILL for the token 5, with no window.
abbrev fill_request : List ℕ
fill_request = 2 ∷ 0 ∷ 0 ∷ 0 ∷ 0 ∷ 0 ∷ 0 ∷ 0 ∷ 6 ∷ 0 ∷ 0 ∷ 0 ∷ 5 ∷ 0 ∷ 0 ∷ 0 ∷ []

perlio_invoke-Answered_example :
    Answered io 32
      (1 ∷ [])
      (perlio_invoke 8192 77 3 bare placed idle strict fill_request (1 ∷ []) 32 (shadow ∷ []) io)
perlio_invoke-Answered_example =
    perlio_invoke-Answered 8192 77 3 bare placed idle strict fill_request (1 ∷ []) 32 (shadow ∷ [])
      io (λ n h a s i. tt) ((buf_pushed, refl), (custom 7, refl)) (tt, tt)
