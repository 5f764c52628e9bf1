-- ===== src/Scraper/Aws/Regions.antt =====
-- internal/scraper/aws_regions.go: the region that a product is stored under.
use c3x_pricing_api.Base.{String, List, [], ◌∷◌, not, ◌&&◌, ◌||◌, str_eq, if◌then◌else◌}
use c3x_pricing_api.Scraper.Attributes.{get}

unfoldable pub aws_locations : List (String × String)
aws_locations =
    ("US East (N. Virginia)", "us-east-1")
    ∷ ("US East (Ohio)", "us-east-2")
    ∷ ("US West (N. California)", "us-west-1")
    ∷ ("US West (Oregon)", "us-west-2")
    ∷ ("Africa (Cape Town)", "af-south-1")
    ∷ ("Asia Pacific (Hong Kong)", "ap-east-1")
    ∷ ("Asia Pacific (Hyderabad)", "ap-south-2")
    ∷ ("Asia Pacific (Jakarta)", "ap-southeast-3")
    ∷ ("Asia Pacific (Melbourne)", "ap-southeast-4")
    ∷ ("Asia Pacific (Mumbai)", "ap-south-1")
    ∷ ("Asia Pacific (Osaka)", "ap-northeast-3")
    ∷ ("Asia Pacific (Seoul)", "ap-northeast-2")
    ∷ ("Asia Pacific (Singapore)", "ap-southeast-1")
    ∷ ("Asia Pacific (Sydney)", "ap-southeast-2")
    ∷ ("Asia Pacific (Tokyo)", "ap-northeast-1")
    ∷ ("Canada (Central)", "ca-central-1")
    ∷ ("Canada West (Calgary)", "ca-west-1")
    ∷ ("EU (Frankfurt)", "eu-central-1")
    ∷ ("EU (Ireland)", "eu-west-1")
    ∷ ("EU (London)", "eu-west-2")
    ∷ ("EU (Milan)", "eu-south-1")
    ∷ ("EU (Paris)", "eu-west-3")
    ∷ ("EU (Spain)", "eu-south-2")
    ∷ ("Europe (Spain)", "eu-south-2")
    ∷ ("EU (Stockholm)", "eu-north-1")
    ∷ ("EU (Zurich)", "eu-central-2")
    ∷ ("Europe (Zurich)", "eu-central-2")
    ∷ ("Israel (Tel Aviv)", "il-central-1")
    ∷ ("Middle East (Bahrain)", "me-south-1")
    ∷ ("Middle East (UAE)", "me-central-1")
    ∷ ("South America (Sao Paulo)", "sa-east-1")
    ∷ ("AWS GovCloud (US-East)", "us-gov-east-1")
    ∷ ("AWS GovCloud (US-West)", "us-gov-west-1")
    ∷ ("Asia Pacific (Malaysia)", "ap-southeast-5")
    ∷ ("Asia Pacific (Thailand)", "ap-southeast-7")
    ∷ ("Asia Pacific (Taipei)", "ap-east-2")
    ∷ ("Asia Pacific (New Zealand)", "ap-southeast-6")
    ∷ ("Mexico (Central)", "mx-central-1")
    ∷ ("China (Beijing)", "cn-north-1")
    ∷ ("China (Ningxia)", "cn-northwest-1")
    ∷ []

unfoldable pub aws_location_to_region : String → String
unfolding aws_locations
aws_location_to_region location = get location aws_locations

unfoldable pub aws_product_region : List (String × String) → String
aws_product_region attrs =
    let region_code = get "regionCode" attrs in
    let location = get "location" attrs in
    let region = aws_location_to_region location in
    if not (str_eq region_code "") && str_eq (get "locationType" attrs) "AWS Region"
    then region_code
    else if not (str_eq region "")
    then region
    else if str_eq location "Any" || str_eq location "Global"
    then ""
    else location
