-- ===== src/Contexts/Examples.antt =====
-- The chain of an interpreter in which each stack info is the previous one of itself.
use go_perl.Prelude.{none, [], arith, false}
use go_perl.Bridge.{Guest}
use go_perl.Save.Examples.{quiet}
use go_perl.Optree.Registry.{blank}
use go_perl.Optree.Build.{GuestText}
use go_perl.Contexts.{Contexts, si_cur, si_depths}
use go_perl.Contexts.Chain.{Chain, Read, GivesChain, si_cur_lem}

abbrev endless : Guest
endless = record { answer = λ log call. 1 }

abbrev no_text : GuestText
no_text = λ log packed. none

abbrev unread : Contexts
unread = record {
  tree = record {
    world = quiet;
    ops = λ a. blank;
    buckets = [];
    opext = [];
    next = 1;
    persist_mode = false;
    strings = [];
  };
  si_cache = [];
  si_gen = 0;
}

si_cur_lem_example :
    let r = si_cur endless no_text unread in
    Chain si_depths r.1.si_cache × Read endless no_text r × GivesChain endless unread r
si_cur_lem_example = si_cur_lem endless no_text unread (tt, omega arith)
