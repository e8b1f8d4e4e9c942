-- ===== src/Client/Trials.antt =====
-- The theorems on command lines, at the cluster of the other examples.
use distft.Prelude.{◌≡◌, refl, [], ◌∷◌, true, arith}
use distft.Key.Examples.{toy_hash}
use distft.Client.Control.{ascii}
use distft.Client.Daemon.{cmd_store, run_cmd}
use distft.Client.Interactive.{tokens, is_space, flush, interact}
use distft.Client.Typed.{seen, Runs, interact-run_cmd}
use distft.Client.Examples.{
  toy_cluster, toy_rand, toy_local, toy_order, toy_opens, path, fresh, id, request,
}

typed : tokens [] (ascii "store /a") ≡ ascii "store" ∷ path ∷ []
unfolding tokens is_space flush ascii
typed = refl

interact-run_cmd_example :
    interact toy_cluster toy_hash toy_rand toy_local toy_order toy_opens [] true
      (ascii "store /a")
      fresh
    ≡ seen (run_cmd toy_cluster toy_hash toy_rand toy_local toy_order toy_opens request fresh)
interact-run_cmd_example =
    interact-run_cmd toy_cluster toy_hash toy_rand toy_local toy_order toy_opens []
      (ascii "store" ∷ path ∷ []) (path ∷ []) cmd_store 1 id (ascii "store /a") true fresh
      (Runs.store (path ∷ []) (omega arith)) typed
