-- ===== src/Geo/Loaded.antt =====
-- geo.rs: the rules read of a file are clean, so the loaded matchers answer as scans do.
use mirage_android.Prelude.{
  ℕ, ◌≡◌, refl, sym, ap, ◌∙◌, Bool, true, false, ◌&&◌, Option, none, some, List, [], ◌∷◌, ◌++◌, map,
  arith, if◌then◌else◌, Text, text_key, text_eq, subst, length, ◌==◌, any, All, if_keeps,
}
use mirage_android.Data.Maps.{get, get-insert}
use mirage_android.Data.Texts.{clean_domain, clean_domain_idem}
use mirage_android.Data.Lossy.{from_utf8_lossy}
use mirage_android.Data.Numerals.{◌>>=◌}
use mirage_android.Geo.{
  RegexEngine, SiteDomain, GeoSiteMatcher, new_matcher, matches_site, matches_any,
}
use mirage_android.Geo.Index.{IsClean, matches_any-new_matcher}
use mirage_android.Geo.Wire.{
  read_varint, read_len_delim, fields, ArmKeeps, OfSome, Keeps, fields_keeps, file_fields_keeps,
  with_varint-Keeps, with_data-Keeps, skip_field-Keeps,
}
use mirage_android.Geo.Files.{
  domain_arm, site_domain, parse_domain_msg, push_domain, site_entry_arm, SiteEntry, if_named,
  parse_geosite_entry, SiteMap, insert_site_entry, site_file_arm, parse_geosite_file, index_entry,
  contents, load_geo_files, table_code,
}

domain_arm_keeps : ArmKeeps (λ s. clean_domain (s.1) ≡ s.1) domain_arm
domain_arm_keeps (dtype, value) number wire rest h =
    let P = λ (s : ℕ × Text). clean_domain (s.1) ≡ s.1 in
    if_keeps (Keeps P) (number == 1 && wire == 0)
      (λ e. with_varint-Keeps P (read_varint rest) (λ v. (v, value)) (λ v. h))
      (λ e.
        if_keeps (Keeps P) (number == 2 && wire == 2)
          (λ e.
            with_data-Keeps P (read_len_delim rest)
              (λ payload. (dtype, clean_domain (from_utf8_lossy payload)))
              (λ payload. clean_domain_idem (from_utf8_lossy payload)))
          (λ e. skip_field-Keeps P wire (dtype, value) rest h))

module _ (engine : RegexEngine) where
  open engine use {Regex}

  site_domain-IsClean :
      (s : ℕ × Text) → clean_domain (s.1) ≡ s.1 → OfSome (IsClean engine) (site_domain engine s)
  unfolding site_domain
  site_domain-IsClean (dtype, []) h = tt
  site_domain-IsClean (dtype, c ∷ cs) h =
      let P = OfSome (IsClean engine) in
      if_keeps P (dtype == 0) (λ e. tt)
        (λ e.
          if_keeps P (dtype == 1) (λ e. tt)
            (λ e.
              if_keeps P (dtype == 2) (λ e. h) (λ e. if_keeps P (dtype == 3) (λ e. h) (λ e. h))))

  read-IsClean :
      (o : Option (ℕ × Text))
      → OfSome (λ (s : ℕ × Text). clean_domain (s.1) ≡ s.1) o
      → OfSome (IsClean engine) (o >>= site_domain engine)
  read-IsClean none h = tt
  read-IsClean (some s) h = site_domain-IsClean s h

  parse_domain_msg-IsClean : (buf : Text) → OfSome (IsClean engine) (parse_domain_msg engine buf)
  unfolding parse_domain_msg
  parse_domain_msg-IsClean buf =
      let P = λ (s : ℕ × Text). clean_domain (s.1) ≡ s.1 in
      read-IsClean (fields domain_arm (length buf) (0, []) buf)
        (fields_keeps P domain_arm (length buf) (0, []) buf domain_arm_keeps refl)

  All-snoc :
      (ds : List (SiteDomain Regex)) (d : SiteDomain Regex)
      → All (IsClean engine) ds
      → IsClean engine d
      → All (IsClean engine) (ds ++ (d ∷ []))
  All-snoc [] d h k = (k, tt)
  All-snoc (x ∷ ds) d (h, hs) k = (h, All-snoc ds d hs k)

  push_domain-IsClean :
      (ds : List (SiteDomain Regex)) (o : Option (SiteDomain Regex))
      → All (IsClean engine) ds
      → OfSome (IsClean engine) o
      → All (IsClean engine) (push_domain engine ds o)
  push_domain-IsClean ds none h k = h
  push_domain-IsClean ds (some d) h k = All-snoc ds d h k

  abbrev CleanEntry : SiteEntry engine → Type 0
  CleanEntry e = All (IsClean engine) (e.1)

  site_entry_arm_keeps : ArmKeeps CleanEntry (site_entry_arm engine)
  site_entry_arm_keeps (code, ds) number wire rest h =
      if_keeps (Keeps CleanEntry) (number == 1 && wire == 2)
        (λ e.
          with_data-Keeps CleanEntry (read_len_delim rest) (λ payload. (table_code payload, ds))
            (λ payload. h))
        (λ e.
          if_keeps (Keeps CleanEntry) (number == 2 && wire == 2)
            (λ e.
              with_data-Keeps CleanEntry (read_len_delim rest)
                (λ payload. (code, push_domain engine ds (parse_domain_msg engine payload)))
                (λ payload.
                  push_domain-IsClean ds (parse_domain_msg engine payload) h
                    (parse_domain_msg-IsClean payload)))
            (λ e. skip_field-Keeps CleanEntry wire (code, ds) rest h))

  if_named_keeps :
      (o : Option (SiteEntry engine))
      → OfSome CleanEntry o
      → OfSome CleanEntry (o >>= λ e. if_named (e.0) e)
  if_named_keeps none h = tt
  if_named_keeps (some ([], ds)) h = tt
  if_named_keeps (some (c ∷ cs, ds)) h = h

  parse_geosite_entry-IsClean : (buf : Text) → OfSome CleanEntry (parse_geosite_entry engine buf)
  unfolding parse_geosite_entry
  parse_geosite_entry-IsClean buf =
      if_named_keeps (fields (site_entry_arm engine) (length buf) ([], []) buf) (
        fields_keeps CleanEntry (site_entry_arm engine) (length buf) ([], []) buf
          site_entry_arm_keeps tt)

  -- Every table of the map has clean rules.
  abbrev CleanMap : SiteMap engine → Type 0
  CleanMap m =
      (tag : Text) (ds : List (SiteDomain Regex)) → get m tag ≡ some ds → All (IsClean engine) ds

  either-IsClean :
      (same : Bool) (ds ds' : List (SiteDomain Regex)) (o : Option (List (SiteDomain Regex)))
      → All (IsClean engine) ds
      → (o ≡ some ds' → All (IsClean engine) ds')
      → (if same then some ds else o) ≡ some ds'
      → All (IsClean engine) ds'
  either-IsClean true ds ds' o h k e =
      let same_rules : ds ≡ ds' = ground arith in subst (All (IsClean engine)) same_rules h
  either-IsClean false ds ds' o h k e = k e

  insert_site_entry-IsClean :
      (m : SiteMap engine) (o : Option (SiteEntry engine))
      → CleanMap m
      → OfSome CleanEntry o
      → CleanMap (insert_site_entry engine m o)
  insert_site_entry-IsClean m none h k = h
  insert_site_entry-IsClean m (some (code, ds)) h k = λ tag ds' e.
      either-IsClean (text_eq code tag) ds ds' (get m tag) k (h tag ds')
        (sym (get-insert m code tag ds) ∙ e)

  site_file_arm_keeps : ArmKeeps CleanMap (site_file_arm engine)
  site_file_arm_keeps m number wire rest h =
      if_keeps (Keeps CleanMap) (number == 1 && wire == 2)
        (λ e.
          with_data-Keeps CleanMap (read_len_delim rest)
            (λ payload. insert_site_entry engine m (parse_geosite_entry engine payload))
            (λ payload.
              insert_site_entry-IsClean m (parse_geosite_entry engine payload) h
                (parse_geosite_entry-IsClean payload)))
        (λ e. skip_field-Keeps CleanMap wire m rest h)

  parse_geosite_file-IsClean : (payload : Text) → CleanMap (parse_geosite_file engine payload)
  unfolding parse_geosite_file
  parse_geosite_file-IsClean payload =
      file_fields_keeps CleanMap (site_file_arm engine) (length payload) [] payload
        site_file_arm_keeps (unfold get in λ tag ds e. cc)

  index_either :
      (same : Bool) (ds : List (SiteDomain Regex)) (m : GeoSiteMatcher Regex)
      (o : Option (GeoSiteMatcher Regex)) (o' : Option (List (SiteDomain Regex)))
      → (o ≡ some m → (ds' : List (SiteDomain Regex)) × (o' ≡ some ds') × (m ≡ new_matcher ds'))
      → (if same then some (new_matcher ds) else o) ≡ some m
      → (ds' : List (SiteDomain Regex)) × ((if same then some ds else o') ≡ some ds')
        × (m ≡ new_matcher ds')
  index_either true ds m o o' h e =
      let same_rules : m ≡ new_matcher ds = ground arith in (ds, refl, same_rules)
  index_either false ds m o o' h e = h e

  get-index_entry :
      (sites : SiteMap engine) (tag : Text) (m : GeoSiteMatcher Regex)
      → get (map (index_entry engine) sites) tag ≡ some m
      → (ds : List (SiteDomain Regex)) × (get sites tag ≡ some ds) × (m ≡ new_matcher ds)
  unfolding get
  get-index_entry [] tag m e = cc
  get-index_entry ((code, ds) ∷ sites) tag m e =
      index_either (text_eq code tag) ds m (get (map (index_entry engine) sites) tag)
        (get sites tag) (get-index_entry sites tag m) e

  -- Whatever the bytes of the two files are: a matcher that is loaded under a tag answers for
  -- every domain as the scan, with the matcher of one rule, of the list of rules that the geosite
  -- file has under the tag.
  pub load_geo_files-scan :
      (geosite_path geoip_path : Text) (geosite_file geoip_file : Option Text) (tag domain : Text)
      (m : GeoSiteMatcher Regex)
      → get ((load_geo_files engine geosite_path geoip_path geosite_file geoip_file).1).sites tag
        ≡ some m
      → (ds : List (SiteDomain Regex)) × (get
            (parse_geosite_file engine (contents engine geosite_path geosite_file))
            tag
          ≡ some ds)
        × (matches_any engine m domain ≡ any (λ s. matches_site engine s domain) ds)
  unfolding load_geo_files
  load_geo_files-scan geosite_path geoip_path geosite_file geoip_file tag domain m e =
      let payload = contents engine geosite_path geosite_file in
      let (ds, found, same) = get-index_entry (parse_geosite_file engine payload) tag m e in
      let clean = parse_geosite_file-IsClean payload tag ds found in
      (
        ds,
        found,
        ap (λ (x : GeoSiteMatcher Regex). matches_any engine x domain) same
            ∙ matches_any-new_matcher engine ds domain clean,
      )
