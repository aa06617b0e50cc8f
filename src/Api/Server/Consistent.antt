-- ===== src/Api/Server/Consistent.antt =====
-- The invariant of the tables, for the whole server.
use listserver.Api.Admin.Kept.{IsKept}
use listserver.Api.Http.{World}
use listserver.Api.Keeps.{Holds}
use listserver.Api.Server.{Outside}
use listserver.Api.Server.History.{Moment, live, live-Holds}
use listserver.Api.Server.Kept.Public.{IsServed}
use listserver.Auth.{AdminAuth, AdminContext}
use listserver.Base.{List}
use listserver.Config.{Config}
use listserver.Db.Consistent.{
  IsConsistent, admin_update_sessions-Keeps, cleanup-Keeps, delete_session-Keeps,
  insert_session-Keeps, refresh_session-Keeps,
}
use listserver.Db.Consistent.Accounts.{
  admin_create_host_ban-Keeps, admin_create_role-Keeps, admin_delete_host_ban-Keeps,
  admin_delete_role-Keeps, admin_update_host_ban-Keeps, admin_update_role-Keeps,
}
use listserver.Db.Consistent.Members.{
  admin_create_user-Keeps, admin_delete_user-Keeps, admin_update_user-Keeps,
  admin_update_user_password-Keeps,
}
use listserver.Db.Model.{IsRowid, Sqlite}
use listserver.Inclsrv.{Ttls}

module _ (sq : Sqlite) (law : IsRowid sq) where
  IsConsistent-IsKept : (ctx : AdminContext) → IsKept sq ctx IsConsistent
  IsConsistent-IsKept ctx = record {
    update_sessions = admin_update_sessions-Keeps;
    create_ban = admin_create_host_ban-Keeps sq law;
    update_ban = admin_update_host_ban-Keeps sq law;
    delete_ban = admin_delete_host_ban-Keeps;
    create_role = λ row _ _. admin_create_role-Keeps sq law row;
    update_role = λ id row _ _. admin_update_role-Keeps id row;
    delete_role = λ id _. admin_delete_role-Keeps id;
    create_user = λ name hash role _ _. admin_create_user-Keeps sq law name hash role;
    update_user = λ id name hash role _ _. admin_update_user-Keeps id name hash role;
    update_password = admin_update_user_password-Keeps ctx.user_id;
    delete_user = λ id _. admin_delete_user-Keeps id;
  }

  IsConsistent-IsServed : IsServed sq IsConsistent
  IsConsistent-IsServed = record {
    public = record {
      insert = insert_session-Keeps sq law;
      refresh = refresh_session-Keeps;
      delete = delete_session-Keeps;
    };
    administer = IsConsistent-IsKept;
  }

module _ (out : Outside) (ttls : Ttls) (cfg : Config) (auth : AdminAuth) where
  -- Whatever requests a server answers, by whomever and in whichever order, with the daily clean-up
  -- among them, and whichever statements fail, consistent tables stay consistent.
  pub live-IsConsistent :
      IsRowid out.sqlite
      → (ms : List Moment) (w : World) → Holds IsConsistent w.db
      → Holds IsConsistent (live out ttls cfg auth w ms).db
  live-IsConsistent law =
      live-Holds out ttls cfg auth (IsConsistent-IsServed out.sqlite law) cleanup-Keeps
