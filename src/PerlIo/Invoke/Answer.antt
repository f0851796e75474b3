-- ===== src/PerlIo/Invoke/Answer.antt =====
-- `__goperl_perlio_invoke` answers every request, and puts the frame back.
use go_perl.Prelude.{
  ℕ, ◌-◌, ◌≤◌, ◌≡◌, inl, inr, refl, ◌∙◌, ◌||◌, Option, none, some, List, ltb, ◌==◌, if◌then◌else◌,
  set, length, arith, length-set, Bool-cases,
}
use go_perl.Bridge.{Guest}
use go_perl.Text.{strlen}
use go_perl.Text.Concat.{length-memcpy}
use go_perl.Format.{Printf}
use go_perl.PerlIo.{SlotName, Method, Tab, Shadow, dist, Io, Ran, ran, raised, crashed, Args, Hooks}
use go_perl.PerlIo.Methods.{Returns, AllReturn, call-Returns}
use go_perl.PerlIo.Shadows.{iol_shadow}
use go_perl.PerlIo.Shadows.Law.{Distinct, Distinct-store, iol_shadow-Served, drop_shadow_lem}
use go_perl.PerlIo.Invoke.{
  u32_at, put_u32, run_hook, pushed_end, invoke_pushed, fill_end, invoke_fill, run_request,
  leave_invoke, perlio_invoke, Response, Hooked, response, crash, hooked, croaked, fault,
}

-- An answer to the interpreter: the frame's `jb` and the current frame are those before, the
-- result counts bytes of the response buffer, and each token has one shadow at most.
abbrev pub Answered : Io → ℕ → List ℕ → Response → Type 0
Answered io respcap resp (response r resp' list io') =
    (io'.jb ≡ io.jb)
    × (io'.cur_frame ≡ io.cur_frame)
    × (r ≤ respcap)
    × (length resp' ≡ length resp)
    × Distinct list
Answered io respcap resp crash = ⊥

-- A hook that ended, with the response buffer's length kept.
Ended : List ℕ → Hooked → Type 0
Ended resp (hooked rlen resp' list io) = (rlen ≤ 32) × (length resp' ≡ length resp) × Distinct list
Ended resp (croaked list io) = Distinct list
Ended resp fault = ⊥

length-put_u32 : (bytes : List ℕ) (at v : ℕ) → length (put_u32 bytes at v) ≡ length bytes
unfolding put_u32
length-put_u32 bytes at v = simp length-set

leave_invoke-Answered :
    (io : Io) (respcap : ℕ) (resp resp' : List ℕ) (h : Hooked)
    → 32 ≤ respcap
    → length resp' ≡ length resp
    → Ended resp' h
    → Answered io respcap resp (leave_invoke io.jb io.cur_frame respcap resp' h)
unfolding leave_invoke Ended
leave_invoke-Answered io respcap resp resp' (hooked rlen out list io') l k h =
    (refl, refl, omega arith, h.1 ∙ k, h.2)
leave_invoke-Answered io respcap resp resp' (croaked list io') l k h =
    let ml = if ltb (respcap - 1) (strlen io'.err) then respcap - 1 else strlen io'.err in
    (
      refl,
      refl,
      ground arith,
      length-memcpy (set resp' 0 0) 1 io'.err ml ∙ length-set resp' 0 0 ∙ k,
      h,
    )
leave_invoke-Answered io respcap resp resp' fault l k h = absurd h

pushed_end-Ended :
    (e : Printf) (tab : Tab) (before : ℕ) (resp : List ℕ) (list : List Shadow) (r : Ran)
    → Distinct list
    → Returns r
    → Ended resp (pushed_end e tab before resp list r)
unfolding pushed_end Ended
pushed_end-Ended e tab before resp list crashed d h = absurd h
pushed_end-Ended e tab before resp list (raised s io) d h = Distinct-store s list d
pushed_end-Ended e tab before resp list (ran code s io) d h = elim (Bool-cases (code == 0)) [
  | inl z ↦ rw z (omega arith, simp length-put_u32, Distinct-store s list d)
  | inr z ↦ rw z (Distinct-store s list d)
]

fill_end-Ended :
    (resp : List ℕ) (list : List Shadow) (r : Ran)
    → Distinct list
    → Returns r
    → Ended resp (fill_end resp list r)
unfolding fill_end Ended
fill_end-Ended resp list crashed d h = absurd h
fill_end-Ended resp list (raised s io) d h = Distinct-store s list d
fill_end-Ended resp list (ran code s io) d h =
    (omega arith, simp length-put_u32, Distinct-store s list d)

run_hook-Returns :
    (g : Guest) (hooks : Hooks) (o : Option Method) (m : Method) (a : Args) (s : Shadow) (io : Io)
    → AllReturn hooks
    → o ≡ some m
    → Returns (run_hook g hooks o a s io)
unfolding run_hook
run_hook-Returns g hooks none m a s io all is = absurd cc
run_hook-Returns g hooks (some k) m a s io all is = call-Returns g hooks k dist a s io all

-- A table whose two hooks are set.
abbrev pub HasHooks : Tab → Type 0
HasHooks tab =
    ((m : Method) × (tab.slot SlotName.pushed ≡ some m))
    × ((m : Method) × (tab.slot SlotName.fill ≡ some m))

invoke_pushed-Ended :
    (e : Printf) (g : Guest) (hooks : Hooks) (tab : Tab) (req resp : List ℕ) (s : Shadow)
    (list : List Shadow) (io : Io)
    → AllReturn hooks
    → HasHooks tab
    → Distinct list
    → Ended resp (invoke_pushed e g hooks tab req resp (s, list) io)
unfolding invoke_pushed
invoke_pushed-Ended e g hooks tab req resp s list io all has d =
    pushed_end-Ended e tab s.layer.base.flags resp list _ d
      (run_hook-Returns g hooks (tab.slot SlotName.pushed) has.0.0 _ s io all has.0.1)

invoke_fill-Ended :
    (g : Guest) (hooks : Hooks) (tab : Tab) (req resp : List ℕ) (s : Shadow) (list : List Shadow)
    (io : Io)
    → AllReturn hooks
    → HasHooks tab
    → Distinct list
    → Ended resp (invoke_fill g hooks tab req resp (s, list) io)
unfolding invoke_fill
invoke_fill-Ended g hooks tab req resp s list io all has d =
    fill_end-Ended resp list _ d
      (run_hook-Returns g hooks (tab.slot SlotName.fill) has.1.0 _ _ _ all has.1.1)

run_request-Ended :
    (address : ℕ) (e : Printf) (g : Guest) (hooks : Hooks) (tab : Tab) (req resp : List ℕ)
    (list : List Shadow) (io : Io)
    → AllReturn hooks
    → HasHooks tab
    → Distinct list
    → Ended resp (run_request address e g hooks tab req resp list io)
unfolding run_request Ended
run_request-Ended address e g hooks tab req resp list io all has d =
    let shadow = iol_shadow address tab (u32_at req 12) (u32_at req 8) list in
    let served = iol_shadow-Served address tab (u32_at req 12) (u32_at req 8) list d in
    elim (Bool-cases (u32_at req 0 == 1)) [
      | inl one ↦
          rw one (
            invoke_pushed-Ended e g hooks tab req resp shadow.0 shadow.1 io all has served.distinct)
      | inr one ↦ elim (Bool-cases (u32_at req 0 == 2)) [
        | inl two ↦
            rw (one, two)
              (invoke_fill-Ended g hooks tab req resp shadow.0 shadow.1 io all has served.distinct)
        | inr two ↦ elim (Bool-cases (u32_at req 0 == 3)) [
          | inl three ↦
              rw (one, two, three) (omega arith, refl, (drop_shadow_lem (u32_at req 12) list d).0)
          | inr three ↦ rw (one, two, three) (omega arith, refl, d)
        ]
      ]
    ]

-- Whatever the request says and whatever the author's functions do, a croak included, the call is
-- answered: the frame's `jb` and the current frame are put back, the result counts bytes of the
-- response buffer, which keeps its length, and each token has one shadow at most. The table's two
-- hooks are set, its author's functions return or croak, and the shadows were distinct before.
pub perlio_invoke-Answered :
    (address own frame : ℕ) (e : Printf) (g : Guest) (hooks : Hooks) (tab : Tab) (req resp : List ℕ)
    (respcap : ℕ) (list : List Shadow) (io : Io)
    → AllReturn hooks
    → HasHooks tab
    → Distinct list
    → Answered io respcap resp
        (perlio_invoke address own frame e g hooks tab req resp respcap list io)
unfolding perlio_invoke
perlio_invoke-Answered address own frame e g hooks tab req resp respcap list io all has d =
    elim (Bool-cases (ltb (length req) 16 || ltb respcap 32)) [
      | inl short ↦ rw short (refl, refl, omega arith, refl, d)
      | inr enough ↦ rw enough (
          leave_invoke-Answered io respcap resp (set resp 0 1) _ (ground arith)
            (length-set resp 0 1)
            (run_request-Ended address e g hooks tab req (set resp 0 1) list
              (record io { jb = own; cur_frame = frame }) all has d))
    ]
