-- ===== src/Tests/Commands.antt =====
-- Runs of the commands on a box with a selector, a balancer and a pair of servers.
use inhive_core.Prelude.{
  String, true, List, [], ◌∷◌, Option, none, some, ◌≡◌, ◌≢◌, refl, same, if◌then◌else◌, apart,
  same-ne, sym,
}
use inhive_core.Hcore.Commands.{Box, LiveOutbound, HotOptions, server, group, selector, removed}
use inhive_core.Hcore.Commands.UrlTest.{Ends, url_test-Ends}
use inhive_core.Hcore.Commands.HotAdd.{remove_outbound}
use inhive_core.Hcore.Commands.HotAdd.Removes.{loaded, remove_outbound-loaded}

abbrev select_group : LiveOutbound
select_group = record { tag = "select"; dependencies = []; role = selector "balance" }

abbrev balance_group : LiveOutbound
balance_group = record { tag = "balance"; dependencies = []; role = group "node" }

abbrev node : LiveOutbound
node = record { tag = "node"; dependencies = "node · utproto" ∷ []; role = server }

abbrev lookup : String → Option LiveOutbound
lookup t =
    if same t "select"
    then some select_group
    else if same t "balance"
    then some balance_group
    else if same t "node"
    then some node
    else none

-- The state is the list of the tags that are gone, the last one first.
abbrev is_gone : List String → String → Option LiveOutbound → Option LiveOutbound
is_gone [] t o = o
is_gone (g ∷ gs) t o = if same g t then none else is_gone gs t o

abbrev box : Box (List String)
box = record {
  outbound = λ s t. is_gone s t (lookup t);
  outbounds = λ s. select_group ∷ (balance_group ∷ (node ∷ []));
  endpoints = λ s. [];
  create_outbound = λ s o. (s, none);
  create_endpoint = λ s o. (s, none);
  drop_outbound = λ s t. (t ∷ s, removed);
  drop_endpoint = λ s t. (s, removed);
  select = λ s g t. some s;
  add_member = λ s g t. s;
  remove_member = λ s g t. s;
  test_now = λ s t. s;
}

url_test-Ends_example : Ends box (some []) ""
url_test-Ends_example = url_test-Ends box (some []) ""

abbrev main : HotOptions
main = record { kind = "vless"; tag = "a"; detour = some "b § 1"; details = "" }

abbrev helper : HotOptions
helper = record { kind = "utproto"; tag = "b § 1"; detour = some ""; details = "" }

gone_elsewhere :
    (s : List String) (tag t : String)
    → t ≢ tag
    → loaded box (some (tag ∷ s)) t ≡ loaded box (some s) t
gone_elsewhere s tag t h = rw (same-ne tag t (λ q. h (sym q))) refl

remove_outbound-loaded_example :
    loaded box (remove_outbound box (some []) "node").0 "balance" ≡ true
remove_outbound-loaded_example =
    remove_outbound-loaded box (λ s g tag t. refl) gone_elsewhere (λ s tag t h. refl) [] "node"
      "balance" (apart "balance" "node" refl) refl
