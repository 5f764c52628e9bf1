-- ===== src/Scraper/Aws/Normalize.antt =====
-- internal/scraper/aws.go: normalizeProductFamily, normalizeAWSAttributes.
use c3x_pricing_api.Base.{
  String, code, List, none, some, Bool, false, not, ◌&&◌, ◌||◌, str_eq, leb, if◌then◌else◌,
}
use c3x_pricing_api.Base.{has_prefix, contains, cut_char}
use c3x_pricing_api.Scraper.Attributes.{get, set}

unfoldable pub normalize_product_family : String → String
normalize_product_family family =
    if str_eq family "DNS Domain Names"
    then "DNS Zone"
    else if str_eq family "DNS Query"
    then "DNS Query"
    else family

is_capital : String → Bool
is_capital String.[] = false
is_capital (String.◌∷◌ c s) = leb b'A' (code c) && leb (code c) b'Z'

is_some_text : String → Bool
is_some_text s = not (str_eq s "")

-- `ml.c6g.large-Hosting` without its suffix; IndexByte must be above 0.
unfoldable pub strip_role : String → String
unfolding is_capital is_some_text
strip_role instance_type = elim (cut_char b'-' instance_type) [
  | none ↦ instance_type
  | some (before, after) ↦ if is_some_text before && is_capital after then before else instance_type
]

unfoldable pub normalize_sagemaker : List (String × String) → List (String × String)
normalize_sagemaker attrs =
    let instance_type = get "instanceType" attrs in
    let stripped = strip_role instance_type in
    if str_eq instance_type "" || str_eq stripped instance_type
    then attrs
    else set "instanceType" stripped attrs

unfoldable pub normalize_eks : List (String × String) → List (String × String)
normalize_eks attrs =
    let usage = get "usagetype" attrs in
    if not (str_eq usage "") && str_eq (get "mode" attrs) ""
    then (if contains usage "EKS-Auto"
        then set "mode" "Auto" attrs
        else if contains usage "AmazonEKS-Hours"
            || contains usage "EKS-Cluster"
            || contains usage "Cluster-Hours"
        then set "mode" "Classic" attrs
        else attrs)
    else attrs

unfoldable pub normalize_athena : List (String × String) → List (String × String)
normalize_athena attrs =
    if str_eq (get "productFamily" attrs) ""
      && (has_prefix (get "operation" attrs) "Query"
          || contains (get "usagetype" attrs) "DataScannedBytes")
    then set "productFamily" "Query" attrs
    else attrs

unfoldable pub normalize_aws_attributes : String → List (String × String) → List (String × String)
normalize_aws_attributes service attrs =
    if str_eq service "AmazonSageMaker"
    then normalize_sagemaker attrs
    else if str_eq service "AmazonEKS"
    then normalize_eks attrs
    else if str_eq service "AmazonAthena"
    then normalize_athena attrs
    else attrs
