-- ===== src/Scraper/Aws/Attributes.antt =====
-- What the normalisation of attributes leaves alone.
use c3x_pricing_api.Base.{String, List, ◌≡◌, ◌≢◌, eq_iff, arith}
use c3x_pricing_api.Scraper.Attributes.{get, get-set}
use c3x_pricing_api.Scraper.Aws.Normalize.{
  normalize_sagemaker, normalize_eks, normalize_athena, normalize_aws_attributes, strip_role,
}

normalize_eks-get :
    (k : String) (attrs : List (String × String))
    → get k attrs ≢ ""
    → get k (normalize_eks attrs) ≡ get k attrs
unfolding normalize_eks
normalize_eks-get k attrs h = ground (
  arith,
  get-set k "mode" "Auto" attrs,
  get-set k "mode" "Classic" attrs,
  eq_iff "mode" k,
  eq_iff (get "mode" attrs) "",
)

normalize_athena-get :
    (k : String) (attrs : List (String × String))
    → get k attrs ≢ ""
    → get k (normalize_athena attrs) ≡ get k attrs
unfolding normalize_athena
normalize_athena-get k attrs h = ground (
  arith,
  get-set k "productFamily" "Query" attrs,
  eq_iff "productFamily" k,
  eq_iff (get "productFamily" attrs) "",
)

normalize_sagemaker-get :
    (k : String) (attrs : List (String × String))
    → k ≢ "instanceType"
    → get k (normalize_sagemaker attrs) ≡ get k attrs
unfolding normalize_sagemaker
normalize_sagemaker-get k attrs h = ground (
  arith,
  get-set k "instanceType" (strip_role (get "instanceType" attrs)) attrs,
  eq_iff "instanceType" k,
)

-- An attribute that the offer file gives keeps its value, except for the instance type of
-- SageMaker.
pub normalize_aws_attributes-get :
    (service k : String) (attrs : List (String × String))
    → get k attrs ≢ ""
    → (service ≡ "AmazonSageMaker" → k ≢ "instanceType")
    → get k (normalize_aws_attributes service attrs) ≡ get k attrs
unfolding normalize_aws_attributes
normalize_aws_attributes-get service k attrs given kept = ground (
  arith,
  eq_iff service "AmazonSageMaker",
  normalize_sagemaker-get k attrs,
  normalize_eks-get k attrs given,
  normalize_athena-get k attrs given,
  kept,
)
