-- ===== src/Dhcp4/Server/Reply.antt =====
-- internal/dhcp/server.go: applyOptions, the options of an Offer or an ACK. The options configured
-- for a group, a scope and a reservation are lists of the entries of their maps, in the order in
-- which the map is visited; the key of an entry is text.
pub mod Filter
use dhcp_server.Base.{ℕ, ◌+◌, ◌-◌, ◌*◌, ◌/◌, ◌%◌, ◌^◌, ltb, leb, ◌==◌, Bool, ◌&&◌, if◌then◌else◌}
use dhcp_server.Base.{Option, none, some, List, [], ◌∷◌}
use dhcp_server.Base.Outcome.{Outcome, ok, err, panic, stuck, ◌>>=◌}
use dhcp_server.Base.Wire.{Bytes, u32}
use dhcp_server.Dhcp4.Options.{Options, get, set, opt_dhcp_message_type, opt_server_identifier}
use dhcp_server.Dhcp4.Server.{opt_ip_address_lease_time}
use dhcp_server.Dhcp4.Values.{
  OptionType, ip, ips, routes, Value, Library, Error, build_option, ip_to_bytes, ips_to_bytes,
}

abbrev pub opt_subnet_mask : ℕ
opt_subnet_mask = 1

abbrev pub opt_router : ℕ
opt_router = 3

abbrev pub opt_domain_name_server : ℕ
opt_domain_name_server = 6

abbrev pub opt_domain_name : ℕ
opt_domain_name = 15

abbrev pub opt_renewal_time_value : ℕ
opt_renewal_time_value = 58

abbrev pub opt_rebinding_time_value : ℕ
opt_rebinding_time_value = 59

abbrev pub Entries : Type 0
Entries = List (Bytes × OptionType × Value)

-- What applyOptions reads of the scope, the group and the reservation; `subnet_mask` is the mask as
-- an address.
pub record OptionSource : Type 0 where
  pub gateway : List Bytes
  pub dns : List Bytes
  pub domain_name : Bytes
  pub subnet_mask : Option Bytes
  pub group_options : Entries
  pub scope_options : Entries
  pub reservation_options : Entries

-- strconvAtoi from the number `n` on; the sum is an int, by the 64 bits of its two's complement.
unfoldable pub strconv_atoi : ℕ → Bytes → Option ℕ
strconv_atoi n [] = some n
strconv_atoi n (c ∷ s) =
    let rest = strconv_atoi ((n * 10 + (c - 48)) % 2 ^ 64) s in
    if leb 48 c && leb c 57 then rest else none

unfoldable pub parse_option_code : Bytes → ℕ
parse_option_code s = elim (strconv_atoi 0 s) [ none ↦ 0 | some n ↦ if leb n 255 then n else 0 ]

-- The slice that BuildOption returns, `none` where it is nil.
unfoldable pub or_nil : OptionType → Bytes → Option Bytes
or_nil ip [] = none
or_nil ips [] = none
or_nil routes [] = none
or_nil _ raw = some raw

-- The body of the three loops over configured options.
unfoldable pub apply_entry : Library → Bytes × OptionType × Value → Options → Outcome Error Options
apply_entry lib (key, type, value) os =
    if parse_option_code key == 0 then ok os else elim (build_option lib type value) [
      | ok raw ↦ ok (set os (parse_option_code key) (or_nil type raw))
      | err e ↦ ok os
      | panic ↦ panic
      | stuck ↦ stuck
    ]

unfoldable pub apply_entries : Library → Entries → Options → Outcome Error Options
apply_entries lib [] os = ok os
apply_entries lib (e ∷ es) os = apply_entry lib e os >>= apply_entries lib es

-- A Set that is done only for a value that is there.
unfoldable pub set_if : Bool → ℕ → Option Bytes → Options → Options
set_if b code value os = if b then set os code value else os

unfoldable pub is_some_list : {A : Type 0} → List A → Bool
is_some_list [] = Bool.false
is_some_list (_ ∷ _) = Bool.true

unfoldable pub or_nil_list : Bytes → Option Bytes
or_nil_list [] = none
or_nil_list raw = some raw

unfoldable pub set_lease_times : (lease_time : ℕ) → Options → Options
set_lease_times t os =
    if ltb 0 t
    then set
        (set (set os opt_ip_address_lease_time (some (u32 t))) opt_renewal_time_value
          (some (u32 (t / 2))))
        opt_rebinding_time_value (some (u32 (t * 7 / 8)))
    else os

unfoldable pub set_scope_options : OptionSource → Options → Options
set_scope_options src os =
    let os1 =
      set_if (is_some_list src.gateway) opt_router (or_nil_list (ips_to_bytes src.gateway)) os in
    let os2 =
      set_if (is_some_list src.dns) opt_domain_name_server (or_nil_list (ips_to_bytes src.dns))
        os1 in
    let os3 = set_if (is_some_list src.domain_name) opt_domain_name (some src.domain_name) os2 in
    elim src.subnet_mask [
      | none ↦ os3
      | some mask ↦ set os3 opt_subnet_mask (or_nil_list (ip_to_bytes mask))
    ]

-- The loops of the filter: the options with the codes are copied.
unfoldable pub keep_codes : List ℕ → (from kept : Options) → Options
keep_codes [] os kept = kept
keep_codes (c ∷ cs) os kept =
    keep_codes cs os (elim (get os c) [ none ↦ kept | some v ↦ set kept c (some v) ])

abbrev pub mandatory_codes : List ℕ
mandatory_codes =
    opt_server_identifier ∷ opt_ip_address_lease_time ∷ opt_renewal_time_value
    ∷ opt_rebinding_time_value ∷ []

-- The filter by the parameter request list.
unfoldable pub filter_options : (prl : Bytes) → Options → Options
filter_options [] os = os
filter_options (c ∷ cs) os =
    keep_codes mandatory_codes os
      (keep_codes (c ∷ cs) os (set [] opt_dhcp_message_type (get os opt_dhcp_message_type)))

unfoldable pub apply_options :
    Library → (prl : Bytes) → OptionSource → (lease_time : ℕ) → Options → Outcome Error Options
apply_options lib prl src lease_time os =
    apply_entries lib src.group_options (set_scope_options src (set_lease_times lease_time os))
    >>= λ os1.
        (apply_entries lib src.scope_options os1 >>= λ os2.
        (apply_entries lib src.reservation_options os2 >>= λ os3. ok (filter_options prl os3)))
