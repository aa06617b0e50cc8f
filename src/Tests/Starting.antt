-- ===== src/Tests/Starting.antt =====
-- A program that starts with an empty file and no included server.
use listserver.Base.{[], codes, false, none, ok, true}
use listserver.Inclsrv.{Upstream}
use listserver.Start.{Environment, Flags, main}
use listserver.Start.Ready.{Ready, main-Ready}
use listserver.Start.Stopping.{EndsWell, main-EndsWell}
use listserver.Tests.Opening.{empty_file}

abbrev nobody : Upstream
nobody = record { status = λ url. none; sessions = λ url. none }

abbrev here : Environment
here = record {
  decode_file = λ path cfg. ok cfg;
  process_env = λ prefix cfg. ok cfg;
  hostname = none;
  admin_user = codes "admin";
  admin_pass = codes "secret";
  driver = record {
    open_error = λ name size. none;
    pragma_errors = [];
    has_conn = true;
    failing = [];
    contents = λ name. empty_file;
  };
  upstream = nobody;
}

abbrev no_flags : Flags
no_flags = record {
  show_version = false;
  cfg_file = [];
  listen_addr = [];
  db_name = [];
  incl_server = codes "http://a";
}

main-Ready_example : Ready here (main here 100 no_flags)
main-Ready_example = main-Ready here 100 no_flags

main-EndsWell_example : EndsWell (main here 100 no_flags)
main-EndsWell_example = main-EndsWell here 100 no_flags
