-- ===== src/Model.antt =====
-- internal/model/model.go and internal/db/projection/projection.go: what the services return, and
-- the values that are recorded of a change. An instant is recorded as its number.
use golang_backend.Base.{ℕ, String, Bool, Option, none, some, List, [], ◌∷◌}
use golang_backend.Json.{Json, Items, null, text, number, array, object, nil, item, end, member}
use golang_backend.Database.Tables

pub record NamedPermission : Type 0 where
  pub id : String
  pub name : String

pub record RolePermission : Type 0 where
  pub permission : NamedPermission

pub record Role : Type 0 where
  pub id : String
  pub name : String
  pub created_at : ℕ
  pub updated_at : ℕ
  pub permissions : List RolePermission

pub record Permission : Type 0 where
  pub id : String
  pub name : String
  pub created_at : ℕ
  pub updated_at : ℕ

pub record UserRole : Type 0 where
  pub id : String
  pub name : String
  pub permissions : List NamedPermission

pub record User : Type 0 where
  pub id : String
  pub email : String
  pub role_id : String
  pub created_at : ℕ
  pub updated_at : ℕ
  pub role : Option UserRole

pub record StoredFile : Type 0 where
  pub id : String
  pub original_name : String
  pub mime_type : String
  pub size : ℕ
  pub created_at : ℕ

pub record AuthUser : Type 0 where
  pub id : String
  pub email : String
  pub role_id : String
  pub deleted_at : Option ℕ
  pub created_at : ℕ
  pub updated_at : ℕ

pub record Pagination : Type 0 where
  pub page : ℕ
  pub limit : ℕ
  pub total_items : ℕ
  pub total_pages : ℕ
  pub has_next_page : Bool
  pub has_prev_page : Bool

pub record TokenPair : Type 0 where
  pub access_token : String
  pub refresh_token : String
  pub access_token_expires_in : ℕ
  pub refresh_token_expires_at : ℕ

pub record Credentials : Type 0 where
  pub email : String
  pub password : String

pub record CreateUserBody : Type 0 where
  pub email : String
  pub password : String
  pub role_id : String

pub record UpdateUserBody : Type 0 where
  pub email : Option String
  pub role_id : Option String

-- `projection.User`
unfoldable pub project_user : Tables.User → User
project_user r = record {
  id = r.id;
  email = r.email;
  role_id = r.role_id;
  created_at = r.created_at;
  updated_at = r.updated_at;
  role = none;
}

-- `projection.AuthUser`
unfoldable pub project_auth_user : Tables.User → AuthUser
project_auth_user r = record {
  id = r.id;
  email = r.email;
  role_id = r.role_id;
  deleted_at = r.deleted_at;
  created_at = r.created_at;
  updated_at = r.updated_at;
}

-- `projection.Role`
unfoldable pub project_role : Tables.Role → Role
project_role r = record {
  id = r.id;
  name = r.name;
  created_at = r.created_at;
  updated_at = r.updated_at;
  permissions = [];
}

-- `projection.Permission`
unfoldable pub project_permission : Tables.Permission → Permission
project_permission r = record {
  id = r.id;
  name = r.name;
  created_at = r.created_at;
  updated_at = r.updated_at;
}

-- `projection.File`
unfoldable pub project_file : Tables.StoredFile → StoredFile
project_file r = record {
  id = r.id;
  original_name = r.original_name;
  mime_type = r.mime_type;
  size = r.size;
  created_at = r.created_at;
}

abbrev pub optional_number : Option ℕ → Json
optional_number none = null
optional_number (some n) = number n

abbrev pub texts : List String → Items
texts [] = nil
texts (s ∷ ss) = item (text s) (texts ss)

-- what `json.Marshal` makes of a user whose role is not filled in
unfoldable pub user_json : User → Json
user_json u = object (
    member "id" (text u.id) (
      member "email" (text u.email) (
        member "roleId" (text u.role_id) (
          member "createdAt" (number u.created_at)
            (member "updatedAt" (number u.updated_at) end)))))

unfoldable pub auth_user_json : AuthUser → Json
auth_user_json u = object (
    member "id" (text u.id) (
      member "email" (text u.email) (
        member "roleId" (text u.role_id) (
          member "deletedAt" (optional_number u.deleted_at) (
            member "createdAt" (number u.created_at)
              (member "updatedAt" (number u.updated_at) end))))))

unfoldable pub permission_json : Permission → Json
permission_json p = object (
    member "id" (text p.id) (
      member "name" (text p.name)
        (member "createdAt" (number p.created_at) (member "updatedAt" (number p.updated_at) end))))

unfoldable pub file_json : StoredFile → Json
file_json f = object (
    member "id" (text f.id) (
      member "originalName" (text f.original_name) (
        member "mimeType" (text f.mime_type)
          (member "size" (number f.size) (member "createdAt" (number f.created_at) end)))))

-- `snapshot` of internal/role/service.go
unfoldable pub role_snapshot : Role → Json
role_snapshot r = object (
    member "id" (text r.id) (
      member "name" (text r.name)
        (member "createdAt" (number r.created_at) (member "updatedAt" (number r.updated_at) end))))

-- `assignmentSnapshot` of internal/role/service.go
unfoldable pub assignment_snapshot : String → List String → Json
assignment_snapshot name ids =
    object (member "name" (text name) (member "permissionIds" (array (texts ids)) end))
