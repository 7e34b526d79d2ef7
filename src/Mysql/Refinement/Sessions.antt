-- ===== src/Mysql/Refinement/Sessions.antt =====
-- internal/db/mysql_adapter.go: the methods on refresh families and tokens.
use golang_backend.Base.{ℕ, String, not, ◌&&◌, arith, ◌==◌, string_eq, nat_eq, keep_if, ltb}
use golang_backend.Library.{Library}
use golang_backend.Database.Postgres.{postgres}
use golang_backend.Mysql.Adapter.{mysql_queries}
use golang_backend.Mysql.Refinement.Uuids.{uuid-Implements}
use golang_backend.Database.Uuid.{by_uuid}
use golang_backend.Mysql.Simulation.{
  SameRows, Always, change_agrees, row_agrees, rows_agree, statement_agrees, statement-Implements,
  drawn-Implements,
}
use golang_backend.Mysql.Refinement.Errors.{db-duplicate, db-no_referenced}
use golang_backend.Database.Tables.{Db}
use golang_backend.Database.Sessions as Postgres
use golang_backend.Database.Sessions.{CreateRefreshFamilyParams, CreateAuthRefreshTokenParams}
use golang_backend.Mysql.Sessions
use golang_backend.Mysql.Contract.{SessionMethods}

insert_family-SameRows :
    (now : ℕ) (a : CreateRefreshFamilyParams) (d : Db)
    → SameRows (Sessions.insert_family now a d) (Postgres.insert_family now a d)
unfolding Sessions.insert_family Postgres.insert_family
insert_family-SameRows now a d = ground (arith, db-duplicate, db-no_referenced)

insert_token-SameRows :
    (now : ℕ) (a : CreateAuthRefreshTokenParams) (id : String) (d : Db)
    → SameRows (Sessions.insert_token now a id d) (Postgres.insert_token now a id d)
unfolding Sessions.insert_token Postgres.insert_token
insert_token-SameRows now a id d = ground (arith, db-duplicate, db-no_referenced)

module _ (lib : Library) where
  pub session_methods : SessionMethods lib (mysql_queries lib) (postgres lib)
  unfolding Postgres.create_auth_refresh_token Sessions.create_auth_refresh_token
      Postgres.create_refresh_family Sessions.create_refresh_family
      Postgres.delete_expired_auth_refresh_tokens Sessions.delete_expired_auth_refresh_tokens
      Postgres.find_auth_refresh_token_by_hash Sessions.find_auth_refresh_token_by_hash
      Postgres.lock_refresh_family Sessions.lock_refresh_family Postgres.lookup_auth_refresh_token
      Sessions.lookup_auth_refresh_token Postgres.revoke_auth_refresh_family
      Sessions.revoke_auth_refresh_family Postgres.revoke_auth_refresh_token
      Sessions.revoke_auth_refresh_token Postgres.revoke_refresh_family_record
      Sessions.revoke_refresh_family_record Postgres.revoke_user_auth_refresh_tokens
      Sessions.revoke_user_auth_refresh_tokens Postgres.revoke_user_refresh_families
      Sessions.revoke_user_refresh_families Postgres.user_has_permission
      Sessions.user_has_permission
  session_methods = record {
    create_auth_refresh_token = λ a.
        uuid-Implements lib
          (λ run k1.
            by_uuid lib run
              (λ k2.
                Postgres.create_auth_refresh_token run (record a { family_id = k1; user_id = k2 }))
              a.user_id)
          a.family_id
          (uuid-Implements lib
            (λ run k2.
              Postgres.create_auth_refresh_token run
                (record a { family_id = a.family_id; user_id = k2 }))
            a.user_id
            (drawn-Implements Always (λ now. Sessions.insert_token now a)
              (λ now. Postgres.insert_token now a)
              λ run w pre. insert_token-SameRows run.now a (run.fresh w.drawn) w.db));
    create_refresh_family = λ a.
        uuid-Implements lib
          (λ run k1.
            by_uuid lib run
              (λ k2. Postgres.create_refresh_family run (record a { id = k1; user_id = k2 }))
              a.user_id)
          a.id
          (uuid-Implements lib
            (λ run k2. Postgres.create_refresh_family run (record a { id = a.id; user_id = k2 }))
            a.user_id
            (statement-Implements Always (λ now. Sessions.insert_family now a)
              (λ now. Postgres.insert_family now a)
              λ run w pre. insert_family-SameRows run.now a w.db));
    delete_expired_auth_refresh_tokens = λ user.
        uuid-Implements lib (λ run k1. Postgres.delete_expired_auth_refresh_tokens run k1) user
          (λ run w pre.
            change_agrees run
              (λ d. record d {
                tokens =
                    keep_if (λ t. not (t.user_id == user && ltb t.expires_at run.now)) d.tokens;
              })
              w);
    find_auth_refresh_token_by_hash = λ hash run w pre. row_agrees run (Postgres.token_at hash) w;
    lock_refresh_family = λ id.
        uuid-Implements lib (λ run k1. Postgres.lock_refresh_family run k1) id
          (λ run w pre. row_agrees run (Postgres.family_at id) w);
    lookup_auth_refresh_token = λ hash run w pre. row_agrees run (Postgres.token_at hash) w;
    revoke_auth_refresh_family = λ family.
        uuid-Implements lib (λ run k1. Postgres.revoke_auth_refresh_family run k1) family
          (λ run w pre. change_agrees run (Postgres.revoke_tokens_of_family run.now family) w);
    revoke_auth_refresh_token = λ id.
        uuid-Implements lib (λ run k1. Postgres.revoke_auth_refresh_token run k1) id
          (λ run w pre. statement_agrees run (Postgres.revoke_one_token run.now id) w);
    revoke_refresh_family_record = λ id.
        uuid-Implements lib (λ run k1. Postgres.revoke_refresh_family_record run k1) id
          (λ run w pre. change_agrees run (Postgres.revoke_family_record run.now id) w);
    revoke_user_auth_refresh_tokens = λ user.
        uuid-Implements lib (λ run k1. Postgres.revoke_user_auth_refresh_tokens run k1) user
          (λ run w pre. change_agrees run (Postgres.revoke_tokens_of_user run.now user) w);
    revoke_user_refresh_families = λ user.
        uuid-Implements lib (λ run k1. Postgres.revoke_user_refresh_families run k1) user
          (λ run w pre. change_agrees run (Postgres.revoke_families_of_user run.now user) w);
    user_has_permission = λ id name.
        uuid-Implements lib (λ run k1. Postgres.user_has_permission run k1 name) id
          (λ run w pre. rows_agree run (Postgres.user_may id name) w);
  }
