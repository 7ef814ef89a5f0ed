-- ===== src/Tests/Targets.antt =====
-- Hosts, ports and tunnels, at concrete inputs.
use ad_block.Base.{◌≡◌, ◌≢◌, refl, true, [], ◌∷◌, ◌++◌, Option, none, arith}
use ad_block.Proxy.Exclusions.{ExclusionStore, matching}
use ad_block.Proxy.Pipeline.{plan_connect}
use ad_block.Proxy.Pipeline.Connect.{Allowed, plan_connect_cases, plan_connect_bracketed}
use ad_block.Proxy.Target.{split_host_port}
use ad_block.Net.Ports.{port_text}
use ad_block.Proxy.Target.Ports.{split_host_port-port_text}
use ad_block.Text.{Text, codes, strip_prefix}

abbrev host : Text
host = codes "a.test"

bare : strip_prefix (b'[' ∷ []) host ≡ none
unfolding strip_prefix
bare = refl

split_host_port-port_text_example :
    split_host_port (host ++ (b':' ∷ port_text 8443)) 443 ≡ (host, 8443)
split_host_port-port_text_example = split_host_port-port_text host 8443 443 refl bare (omega arith)

abbrev store : ExclusionStore
store = record { entries = record { domain = host; enabled = true } ∷ []; header = []; file = none }

abbrev allow : Text → Option Text
allow h = none

plan_connect_cases_example :
    ((plan_connect (host ++ (b':' ∷ port_text 443)) allow (matching store)).host ≡ host)
    × Allowed allow store host
        (plan_connect (host ++ (b':' ∷ port_text 443)) allow (matching store)).verdict
plan_connect_cases_example = plan_connect_cases allow store host 443 refl

-- `[::1]:443`
plan_connect_bracketed_example :
    (plan_connect (b'[' ∷ (codes "::1" ++ (b']' ∷ codes ":443"))) allow allow).host
    ≢ (split_host_port (b'[' ∷ (codes "::1" ++ (b']' ∷ codes ":443"))) 443).0
plan_connect_bracketed_example =
    plan_connect_bracketed (codes "::1") (codes ":443") 443 allow allow refl refl
