-- ===== src/Tests/ReplyRuns.antt =====
-- Runs of the buffer of Discovers and of the options of a reply, and witnesses of their theorems.
use dhcp_server.Base.{◌≤◌, ◌≡◌, refl, ◌==◌, ◌||◌, false, if◌then◌else◌}
use dhcp_server.Base.{none, some, [], ◌∷◌}
use dhcp_server.Base.Outcome.{ok}
use dhcp_server.Base.Rows.{any}
use dhcp_server.Net.{ip_equal, bytes_equal}
use dhcp_server.Dhcp4.Options.{Options, get, set, put, opt_dhcp_message_type}
use dhcp_server.Dhcp4.Packet.{Packet}
use dhcp_server.Dhcp4.Values.{uint8, uint, string, text, build_option, to_uint64, to_string}
use dhcp_server.Dhcp4.Values.{ips_to_bytes, ip_to_bytes}
use dhcp_server.Net.{to4}
use dhcp_server.Dhcp4.Server.Discover.{received, fired, run, is_relayed, count, count_received}
use dhcp_server.Dhcp4.Server.Discover.Once.{run-count, relayed_copy-preferred}
use dhcp_server.Dhcp4.Server.Reply.{
  OptionSource, apply_options, apply_entries, apply_entry, parse_option_code, strconv_atoi, or_nil,
  set_scope_options, set_lease_times, set_if, is_some_list, or_nil_list, filter_options, keep_codes,
  mandatory_codes,
}
use dhcp_server.Dhcp4.Server.Reply.Filter.{apply_options-filtered}
use dhcp_server.Tests.ServerRuns.{renewal}
use dhcp_server.Tests.ValuesRuns.{library}

-- A Discover by local broadcast and its copy by a relay.
abbrev broadcast : Packet
broadcast = record renewal { giaddr = 0 ∷ 0 ∷ 0 ∷ 0 ∷ [] }

abbrev copy : Packet
copy = record renewal { giaddr = 10 ∷ 0 ∷ 0 ∷ 1 ∷ [] }

relayed_copy-preferred_example :
    ((run (received false 7 broadcast ∷ fired 7 ∷ []) []).1 ≡ broadcast ∷ [])
    × ((run (received false 7 broadcast ∷ received false 7 copy ∷ fired 7 ∷ []) []).1 ≡ copy ∷ [])
unfolding is_relayed ip_equal bytes_equal
relayed_copy-preferred_example = relayed_copy-preferred 7 broadcast copy [] refl refl

run-count_example :
    count (λ p. p.xid == 1) (run (received false 7 broadcast ∷ fired 7 ∷ fired 7 ∷ []) []).1
    ≤ count_received (λ p. p.xid == 1) (received false 7 broadcast ∷ fired 7 ∷ fired 7 ∷ [])
run-count_example =
    run-count (λ p. p.xid == 1) (received false 7 broadcast ∷ fired 7 ∷ fired 7 ∷ [])

-- A scope with a router, and the option "23" (a time to live of 64) and the option "12" configured.
abbrev source : OptionSource
source = record {
  gateway = (10 ∷ 0 ∷ 0 ∷ 1 ∷ []) ∷ [];
  dns = [];
  domain_name = [];
  subnet_mask = some (255 ∷ 255 ∷ 255 ∷ 0 ∷ []);
  group_options = [];
  scope_options = (50 ∷ 51 ∷ [], uint8, uint 64) ∷ (49 ∷ 50 ∷ [], string, text (104 ∷ [])) ∷ [];
  reservation_options = [];
}

abbrev start : Options
start = (53, 5 ∷ []) ∷ (54, 10 ∷ 0 ∷ 0 ∷ 2 ∷ []) ∷ []

-- The client lists the options 3 and 23.
abbrev listed : Options
listed =
    (53, 5 ∷ [])
    ∷ (3, 10 ∷ 0 ∷ 0 ∷ 1 ∷ [])
    ∷ (23, 64 ∷ [])
    ∷ (54, 10 ∷ 0 ∷ 0 ∷ 2 ∷ [])
    ∷ (51, 0 ∷ 0 ∷ 2 ∷ 88 ∷ [])
    ∷ (58, 0 ∷ 0 ∷ 1 ∷ 44 ∷ [])
    ∷ (59, 0 ∷ 0 ∷ 2 ∷ 13 ∷ [])
    ∷ []

options-applied : apply_options library (3 ∷ 23 ∷ []) source 600 start ≡ ok listed
unfolding apply_options apply_entries apply_entry parse_option_code strconv_atoi or_nil
    set_scope_options set_lease_times set_if is_some_list or_nil_list filter_options keep_codes set
    put get build_option to_uint64 to_string ips_to_bytes ip_to_bytes to4
options-applied = refl

apply_options-filtered_example :
    (full : Options) × (apply_options library [] source 600 start ≡ ok full)
    × (get listed 23 ≡ (
        if (opt_dhcp_message_type == 23 || any (λ x. x == 23) (3 ∷ 23 ∷ []))
          || any (λ x. x == 23) mandatory_codes
        then get full 23
        else none))
apply_options-filtered_example =
    apply_options-filtered library 3 (23 ∷ []) source 600 start listed 23 options-applied
