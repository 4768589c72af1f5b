-- ===== src/Keys/Prompt.antt =====
-- The texts of the connect guide: `buildAiPrompt` and the two examples of
-- web/src/pages/app/stores/S3KeysCard.tsx.
use Prim.Native.String
use go_drive.Base.{String, Bool, List, [], ◌∷◌, if◌then◌else◌}

-- The lines of a template, each but the last with its line end.
abbrev lines : List String → String
lines [] = ""
lines (x ∷ []) = x
lines (x ∷ y ∷ ys) = String.◌++◌ x (String.◌++◌ "\n" (lines (y ∷ ys)))

abbrev joined : List String → String
joined [] = ""
joined (x ∷ xs) = String.◌++◌ x (joined xs)

abbrev pub dev_note : Bool → String
dev_note is_dev =
    if is_dev
    then "Note: in development use the API port :8081, not the Vite proxy :5173\n(the proxy rewrites Host and breaks SigV4)."
    else ""

unfoldable pub build_ai_prompt : String → String → Bool → String
build_ai_prompt s3_endpoint bucket is_dev = lines (
    joined ("S3 endpoint: " ∷ s3_endpoint ∷ [])
    ∷ joined ("Bucket name: " ∷ bucket ∷ [])
    ∷ "Access key ID: <your access key>"
    ∷ "Secret access key: <your secret>"
    ∷ "Region: us-east-1"
    ∷ "Auth: AWS SigV4"
    ∷ ""
    ∷ "Supported operations: ListObjectsV2 (list + prefix), GetObject,"
    ∷ "HeadObject, PutObject (folders auto-created via key path), DeleteObject,"
    ∷ "multipart upload (CreateMultipartUpload, UploadPart, CompleteMultipartUpload,"
    ∷ "AbortMultipartUpload, ListParts, ListMultipartUploads)."
    ∷ ""
    ∷ "To use with AWS CLI:"
    ∷ joined ("aws --endpoint-url " ∷ s3_endpoint ∷ " s3 ls s3://" ∷ bucket ∷ "/" ∷ [])
    ∷ joined
        ("aws --endpoint-url " ∷ s3_endpoint ∷ " s3 cp file.txt s3://" ∷ bucket ∷ "/hello.txt" ∷ [])
    ∷ ""
    ∷ joined (
        "To use with rclone: type=s3, provider=Other, endpoint=" ∷ s3_endpoint ∷ ", bucket="
        ∷ bucket ∷ "." ∷ [])
    ∷ dev_note is_dev
    ∷ [])

unfoldable pub aws_example : String → String → String
aws_example s3_endpoint bucket =
    let aws = joined ("aws --endpoint-url " ∷ s3_endpoint ∷ []) in
    lines (
      "aws configure"
      ∷ joined (aws ∷ " s3 ls s3://" ∷ bucket ∷ "/" ∷ [])
      ∷ joined (aws ∷ " s3 cp file.txt s3://" ∷ bucket ∷ "/hello.txt" ∷ [])
      ∷ joined (aws ∷ " s3 cp s3://" ∷ bucket ∷ "/hello.txt file.txt" ∷ [])
      ∷ [])

unfoldable pub rclone_example : String → String → String
rclone_example s3_endpoint bucket = lines (
    "rclone config"
    ∷ "  type = s3"
    ∷ "  provider = Other"
    ∷ joined ("  endpoint = " ∷ s3_endpoint ∷ [])
    ∷ joined ("  bucket = " ∷ bucket ∷ [])
    ∷ "  access_key_id = <access key id>"
    ∷ "  secret_access_key = <secret access key>"
    ∷ "  region = us-east-1"
    ∷ ""
    ∷ "rclone ls <remote>:"
    ∷ "rclone copy file.txt <remote>:"
    ∷ "rclone copy <remote>:hello.txt ./"
    ∷ [])
