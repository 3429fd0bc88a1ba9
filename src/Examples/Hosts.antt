-- ===== src/Examples/Hosts.antt =====
-- The host check.
use home_rdp_gateway.Base.{◌≡◌, ◌↔◌, true, false, some, List, [], ◌∷◌}
use home_rdp_gateway.Base.Texts.{codes}
use home_rdp_gateway.Go.Strings.{is_empty}
use home_rdp_gateway.Dashboard.Entry.{Entry, type_host}
use home_rdp_gateway.Security.Hosts.{
  enabled_host_addresses, IsListed, check_host, IsManaged, check_host_iff,
}

abbrev managed : List Entry
managed =
    record {
      id = codes "a";
      entry_type = type_host;
      name = codes "n";
      description = [];
      icon = [];
      allowed_groups = codes "g" ∷ [];
      enabled = true;
      host = codes "pc-{{ preferred_username }}:3389";
      uploaded_template_path = [];
      target_host_override = [];
      target_ip_override = [];
      force_target_ip_override = false;
      created_at = 3;
      updated_at = 3;
    }
    ∷ []

check_host_iff_example :
    (check_host
        (some (some (enabled_host_addresses managed)))
        (codes "any")
        (codes "eve")
        (codes "pc-eve:3389")
      ≡ true)
    ↔ (IsListed (codes "any")
        × (is_empty (codes "eve") ≡ false)
        × IsManaged managed (codes "eve") (codes "pc-eve:3389"))
check_host_iff_example = check_host_iff managed (codes "any") (codes "eve") (codes "pc-eve:3389")
