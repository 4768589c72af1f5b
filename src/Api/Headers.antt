-- ===== src/Api/Headers.antt =====
-- The headers that a request of web/src/lib/api.ts carries.
use go_drive.Base.{String, Option, some, get, ◌==◌, if◌then◌else◌, override}
use go_drive.Api.{RequestInit, bearer, content_type}

-- Which header a tenant request carries under a name: the program's own three first, then the
-- caller's.
abbrev expected_header : Option String → String → RequestInit → String → Option String
expected_header token org_slug options name =
    override (content_type options.body) ("Content-Type" == name) (
      override (bearer token) ("Authorization" == name)
        (if "X-Org-Slug" == name then some org_slug else get options.headers name))
