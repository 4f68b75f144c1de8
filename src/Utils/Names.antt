-- ===== src/Utils/Names.antt =====
-- RenderNameTemplate of internal/utils/utils.go and the functions that it gives to templates. The
-- engine of text/template, the table of unicode.ToLower and the validation of apimachinery are
-- parameters.
use Prim.Native.Char.{Char, code}
use Prim.Native.String.{count, char_at}
use autovpa.Common.{
  ℕ, ◌+◌, ◌-◌, String, Bool, ◌&&◌, ◌||◌, List, [], ◌∷◌, leb, ltb, nat_eq, ◌==◌, if◌then◌else◌,
}
use autovpa.Kube.{failure, wrapped, Result, ok, err}
use autovpa.Utils.Strings.{trim, trim_space, map_runes, replace_all}

-- The fields that a template may name
pub record NameTemplateData : Type 0 where
  pub workload_name : String
  pub namespace : String
  pub kind : String
  pub profile : String

-- The bytes of a rune in UTF-8
abbrev pub rune_len : Char → ℕ
rune_len c =
    let n = code c in
    if ltb n 0x80 then 1 else if ltb n 0x800 then 2 else if ltb n 0x10000 then 3 else 4

-- `for i, r := range s`: `i` is the byte at which the rune starts.
unfoldable pub truncate_from : (i n : ℕ) → String → String
truncate_from i n String.[] = ""
truncate_from i n (String.◌∷◌ c s) =
    let rest = truncate_from (i + rune_len c) n s in if leb n i then "" else String.◌∷◌ c rest

-- A negative `n` gives the empty text, as 0 does.
unfoldable pub truncate_runes : String → ℕ → String
unfolding truncate_from
truncate_runes s n = if nat_eq n 0 then "" else if leb (count s) n then s else truncate_from 0 n s

-- `r >= 'a' && r <= 'z'`, and so on
unfoldable pub is_dns_char : Char → Bool
is_dns_char c =
    let n = code c in
    (leb b'a' n && leb n b'z') || (leb b'0' n && leb n b'9') || nat_eq n b'-' || nat_eq n b'.'

-- the cutset "-."
unfoldable pub is_dns_edge : Char → Bool
is_dns_edge c = let n = code c in nat_eq n b'-' || nat_eq n b'.'

abbrev pub dns_rune : Char → Char
dns_rune c = if is_dns_char c then c else "-"

-- unicode.ToLower, with its table for the runes that are not ASCII as `lower`
abbrev lower_rune : (lower : Char → Char) → Char → Char
lower_rune lower c =
    let n = code c in
    if leb b'A' n && leb n b'Z'
    then char_at "abcdefghijklmnopqrstuvwxyz" (n - b'A')
    else if ltb n 0x80
    then c
    else lower c

module _ (lower : Char → Char) where
  -- strings.ToLower
  unfoldable pub to_lower : String → String
  unfolding map_runes
  to_lower s = map_runes (lower_rune lower) s

  unfoldable pub dns_label : String → String
  unfolding to_lower map_runes trim is_dns_char is_dns_edge
  dns_label s =
      let out = trim is_dns_edge (map_runes dns_rune (to_lower s)) in
      if out == "" then "vpa" else out

-- template.FuncMap
pub record FuncMap : Type 0 where
  pub to_lower : String → String
  pub replace : (s old new : String) → String
  pub trim : String → String
  pub truncate : String → ℕ → String
  pub dns_label : String → String

-- `parse` is template.New("name").Funcs(funcs).Option("missingkey=error").Parse(text), and a parsed
-- template is its Execute. An empty list of complaints means a valid name.
pub record TemplateEngine : Type 0 where
  pub lower : Char → Char
  pub parse : FuncMap → String → Result (NameTemplateData → Result String)
  pub is_dns1123_subdomain : String → List String

unfoldable pub func_map : TemplateEngine → FuncMap
unfolding trim_space to_lower replace_all truncate_runes dns_label
func_map engine = record {
  to_lower = to_lower engine.lower;
  replace = replace_all;
  trim = trim_space;
  truncate = truncate_runes;
  dns_label = dns_label engine.lower;
}

abbrev validated : String → List String → Result String
validated name [] = ok name
validated name (_ ∷ _) = err (failure "rendered name is not a valid DNS-1123 subdomain")

abbrev executed : TemplateEngine → Result String → Result String
executed engine (ok name) = validated name (engine.is_dns1123_subdomain name)
executed engine (err e) = err (wrapped "render template" e)

abbrev parsed :
    TemplateEngine → NameTemplateData → Result (NameTemplateData → Result String) → Result String
parsed engine data' (ok execute) = executed engine (execute data')
parsed engine data' (err e) = err (wrapped "parse template" e)

unfoldable pub render_name_template : TemplateEngine → String → NameTemplateData → Result String
unfolding trim_space
render_name_template engine tmpl data' =
    if trim_space tmpl == ""
    then err (failure "template must not be empty")
    else parsed engine data' (engine.parse (func_map engine) tmpl)
