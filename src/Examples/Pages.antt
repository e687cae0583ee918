-- ===== src/Examples/Pages.antt =====
-- Tracking in small documents.
use email_service_with_aws_s.Base.{
  arrived, nat_eq, if◌then◌else◌, ◌≡◌, refl, arith, [], ◌∷◌, ◌++◌, none, some, map, Bytes, bytes,
  to_lower,
}
use email_service_with_aws_s.Tracking.RoundTrip.{query_unescape-query_escape}
use email_service_with_aws_s.Fakes.Sql.{exact, memory_table}
use email_service_with_aws_s.Repository.Models.{log_clash, stat_clash}
use email_service_with_aws_s.Tracking.Handlers.{Conditions, redirect, handle_click}
use email_service_with_aws_s.Tracking.Clicks.{handle_click-query_escape}
use email_service_with_aws_s.Tracking.Inject.{
  Injector, redirect_attribute, inject_click_tracking, inject_open_pixel, last_index, split_at,
  pixel,
}
use email_service_with_aws_s.Tracking.Links.{Splits, inject_open_pixel_lem}
use email_service_with_aws_s.Tracking.Rewrite.{Rewrites, inject_click_tracking_lem}

abbrev inj : Injector
inj = record { base_url = bytes "http://t" }

abbrev page : Bytes
page = bytes "<a HREF=\"https://x/?a=b\">1</a></BODY>"

inject_click_tracking_example :
    Rewrites (redirect_attribute inj (bytes "L")) page (inject_click_tracking inj page (bytes "L"))
inject_click_tracking_example = inject_click_tracking_lem inj page (bytes "L")

inject_open_pixel_example :
    (before : Bytes) × (after : Bytes) × (inject_open_pixel (map to_lower) inj page (bytes "L")
      ≡ some (before ++ (pixel inj (bytes "L") ++ after)))
    × (before ++ after ≡ page)
    × Splits (map to_lower page) before after
inject_open_pixel_example = inject_open_pixel_lem (map to_lower) inj page (bytes "L") refl

-- A capital letter whose small form is one byte longer: U+023A is two bytes, U+2C65 three.
abbrev grown : Bytes → Bytes
grown [] = []
grown (c ∷ s) =
    let rest = grown s in
    if nat_eq c 200
    then 226 ∷ rest
    else if nat_eq c 186
    then 177 ∷ 165 ∷ rest
    else to_lower c ∷ rest

-- The closing tag is moved beyond the end of the document, and the slice panics.
slice_panics : inject_open_pixel grown inj (bytes "ȺȺȺȺȺȺȺȺ</body>") (bytes "L") ≡ none
unfolding inject_open_pixel last_index split_at
slice_panics = refl

abbrev conditions : Conditions
conditions = record { updated = arrived; read = arrived; counted = arrived; now = 1; today = 1 }

handle_click-query_escape_example :
    (handle_click exact
      (memory_table (log_clash exact))
      (memory_table (stat_clash exact))
      (λ name. "L1")
      conditions
      (bytes "h:/")
      []
      []).0
    ≡ redirect (bytes "h:/")
handle_click-query_escape_example =
    handle_click-query_escape exact (memory_table (log_clash exact))
      (memory_table (stat_clash exact)) (λ name. "L1") conditions [] [] b'h' (bytes ":/")
      (bytes "h:/") (omega arith, (omega arith, (omega arith, tt))) (refl, (refl, (refl, tt)))
      (query_unescape-query_escape (bytes "h:/") (omega arith, (omega arith, (omega arith, tt))))
