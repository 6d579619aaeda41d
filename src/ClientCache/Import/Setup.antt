-- ===== src/ClientCache/Import/Setup.antt =====
-- crates/drv-thru/src/client_cache/mod.rs: the text for a client that cannot import.
use drv_thru.Base.{◌++◌}
use drv_thru.Text.{Text, codes}
use drv_thru.ImportHelper.{HelperSocketStatus, available, missing, not_socket, unreachable}

abbrev pub default_socket_path : Text
default_socket_path = codes "/run/drv-thru/import-helper.sock"

abbrev pub helper_status : HelperSocketStatus → Text
helper_status available =
    codes "A drv-thru import helper is available at "
    ++ default_socket_path
    ++ codes ", but it was not selected."
helper_status missing =
    codes "No drv-thru import helper socket was found at " ++ default_socket_path ++ codes "."
helper_status not_socket =
    codes "The path " ++ default_socket_path ++ codes " exists, but it is not a Unix socket."
helper_status (unreachable why) =
    codes "The drv-thru import helper socket at "
    ++ default_socket_path
    ++ codes " could not be inspected: "
    ++ why

-- The error of Nix is not shown.
unfoldable pub output_import_setup_error : Text → HelperSocketStatus → Text
output_import_setup_error direct_import_error status =
    codes "This client cannot import outputs from this ticket builder.\n\n"
    ++ codes "Nix does not trust this builder key for the current user, "
    ++ codes "and no usable drv-thru import helper is available.\n"
    ++ helper_status status
    ++ codes "\n\nOn an admin client machine, install the client module; "
    ++ codes "the helper defaults on for wheel users:\n\n"
    ++ codes "  services.drv-thru.client.enable = true;\n\n"
    ++ codes "For ticket-helper imports, allow the builder signing key locally:\n\n"
    ++ codes "  services.drv-thru.client.ticketHelper.trustedBuilderPublicKeys = "
    ++ codes "[ \"<builder-public-key>\" ];\n\n"
    ++ codes "For delegated non-admin access, use a narrower helper group:\n\n"
    ++ codes "  services.drv-thru.client.ticketHelper.group = \"drv-thru\";\n"
    ++ codes "  users.users.<name>.extraGroups = [ \"drv-thru\" ];\n\n"
    ++ codes "Then rebuild, log out and back in if group membership changed, and retry.\n\n"
    ++ codes "For a persistent trusted builder, add its signing key to:\n\n"
    ++ codes "  services.drv-thru.client.trustedBuilders.<name>.publicKey\n\n"
    ++ codes "`nix run github:adeci/drv-thru#drv-thru` only runs the CLI; "
    ++ codes "it does not install the helper or change Nix trust."
