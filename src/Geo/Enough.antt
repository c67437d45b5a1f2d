-- ===== src/Geo/Enough.antt =====
-- geo.rs: the loops of the readers of messages and files end.
use mirage_android.Prelude.{
  ℕ, Option, ◌%◌, ◌≤◌, ◌≡◌, refl, ◌&&◌, [], arith, if◌then◌else◌, if_keeps, Text, length, ltb, ◌==◌,
}
use mirage_android.Data.Texts.{clean_domain}
use mirage_android.Data.Lossy.{from_utf8_lossy}
use mirage_android.Data.Numerals.{◌>>=◌}
use mirage_android.Geo.{RegexEngine}
use mirage_android.Geo.Wire.{read_varint, fields}
use mirage_android.Geo.Files.{
  domain_arm, cidr_arm, cidr_of, parse_cidr_msg, IpEntry, push_cidr, insert_ip_entry, ip_entry_arm,
  parse_geoip_entry, IpMaps, ip_file_arm, parse_geoip_file, site_domain, parse_domain_msg,
  push_domain, insert_site_entry, SiteEntry, SiteMap, site_entry_arm, if_named, parse_geosite_entry,
  site_file_arm, parse_geosite_file, table_code,
}
use mirage_android.Geo.Fuel.{
  Leaves, ArmLeaves, with_varint-Leaves, with_data-Leaves, skip_field-Leaves,
}
use mirage_android.Geo.Runs.{Ends, FileEnds, fields-Ends, file_fields-FileEnds}

domain_arm-Leaves : ArmLeaves domain_arm
domain_arm-Leaves (dtype, value) number wire rest =
    let P = Leaves {S = ℕ × Text} (length rest) in
    if_keeps P (number == 1 && wire == 0)
      (λ e. with_varint-Leaves rest (read_varint rest) (λ v. (v, value)) refl)
      (λ e.
        if_keeps P (number == 2 && wire == 2)
          (λ e. with_data-Leaves rest (λ payload. (dtype, clean_domain (from_utf8_lossy payload))))
          (λ e. skip_field-Leaves wire (dtype, value) rest))

cidr_arm-Leaves : ArmLeaves cidr_arm
cidr_arm-Leaves (ip_bytes, prefix) number wire rest =
    let P = Leaves {S = Text × ℕ} (length rest) in
    if_keeps P (number == 1 && wire == 2)
      (λ e. with_data-Leaves rest (λ payload. (payload, prefix)))
      (λ e.
        if_keeps P (number == 2 && wire == 0)
          (λ e.
            with_varint-Leaves rest (read_varint rest)
              (λ v. (ip_bytes, (if ltb (v % 256) 128 then v % 256 else 128))) refl)
          (λ e. skip_field-Leaves wire (ip_bytes, prefix) rest))

ip_entry_arm-Leaves : ArmLeaves ip_entry_arm
ip_entry_arm-Leaves e number wire rest =
    let P = Leaves {S = IpEntry} (length rest) in
    if_keeps P (number == 1 && wire == 2)
      (λ h. with_data-Leaves rest (λ payload. record e { code = table_code payload }))
      (λ h.
        if_keeps P (number == 2 && wire == 2)
          (λ h. with_data-Leaves rest (λ payload. push_cidr e (parse_cidr_msg payload)))
          (λ h. skip_field-Leaves wire e rest))

ip_file_arm-Leaves : ArmLeaves ip_file_arm
ip_file_arm-Leaves maps number wire rest =
    if_keeps (Leaves {S = IpMaps} (length rest)) (number == 1 && wire == 2)
      (λ h. with_data-Leaves rest (λ payload. insert_ip_entry maps (parse_geoip_entry payload)))
      (λ h. skip_field-Leaves wire maps rest)

module _ (engine : RegexEngine) where
  site_entry_arm-Leaves : ArmLeaves (site_entry_arm engine)
  site_entry_arm-Leaves (code, domains) number wire rest =
      let P = Leaves {S = SiteEntry engine} (length rest) in
      if_keeps P (number == 1 && wire == 2)
        (λ h. with_data-Leaves rest (λ payload. (table_code payload, domains)))
        (λ h.
          if_keeps P (number == 2 && wire == 2)
            (λ h.
              with_data-Leaves rest
                (λ payload. (code, push_domain engine domains (parse_domain_msg engine payload))))
            (λ h. skip_field-Leaves wire (code, domains) rest))

  site_file_arm-Leaves : ArmLeaves (site_file_arm engine)
  site_file_arm-Leaves m number wire rest =
      if_keeps (Leaves {S = SiteMap engine} (length rest)) (number == 1 && wire == 2)
        (λ h.
          with_data-Leaves rest
            (λ payload. insert_site_entry engine m (parse_geosite_entry engine payload)))
        (λ h. skip_field-Leaves wire m rest)

  -- Whatever the bytes are, the loops of the six readers of messages and files end, each in a
  -- finite run of rounds that is described without fuel (every round reads a tag and takes the
  -- step of its arm: a failed read, a break, or the next state and place), and what the readers
  -- return is made of the result of that run.
  pub parse_geo-Ends :
      (payload : Text)
      → ((o : Option (ℕ × Text)) × Ends domain_arm (0, []) payload o
          × (parse_domain_msg engine payload ≡ (o >>= site_domain engine)))
        × ((o : Option (SiteEntry engine)) × Ends (site_entry_arm engine) ([], []) payload o
            × (parse_geosite_entry engine payload ≡ (o >>= λ e. if_named (e.0) e)))
        × FileEnds (site_file_arm engine) [] payload (parse_geosite_file engine payload)
        × ((o : Option (Text × ℕ)) × Ends cidr_arm ([], 0) payload o
            × (parse_cidr_msg payload ≡ (o >>= cidr_of)))
        × ((o : Option IpEntry) × Ends ip_entry_arm
              (record { code = []; v4_cidrs = []; v6_cidrs = [] })
              payload
              o
            × (parse_geoip_entry payload ≡ (o >>= λ e. if_named e.code e)))
        × FileEnds ip_file_arm ([], []) payload (parse_geoip_file payload)
  unfolding parse_domain_msg parse_geosite_entry parse_geosite_file parse_cidr_msg parse_geoip_entry
      parse_geoip_file
  parse_geo-Ends payload =
      let n : ℕ = length payload in
      let exact : n ≤ n = omega arith in
      let no_entry : IpEntry = record { code = []; v4_cidrs = []; v6_cidrs = [] } in
      (
        (
          fields domain_arm n (0, []) payload,
          fields-Ends domain_arm n (0, []) payload domain_arm-Leaves exact,
          refl,
        ),
        (
          fields (site_entry_arm engine) n ([], []) payload,
          fields-Ends (site_entry_arm engine) n ([], []) payload site_entry_arm-Leaves exact,
          refl,
        ),
        file_fields-FileEnds (site_file_arm engine) n [] payload site_file_arm-Leaves exact,
        (
          fields cidr_arm n ([], 0) payload,
          fields-Ends cidr_arm n ([], 0) payload cidr_arm-Leaves exact,
          refl,
        ),
        (
          fields ip_entry_arm n no_entry payload,
          fields-Ends ip_entry_arm n no_entry payload ip_entry_arm-Leaves exact,
          refl,
        ),
        file_fields-FileEnds ip_file_arm n ([], []) payload ip_file_arm-Leaves exact,
      )
