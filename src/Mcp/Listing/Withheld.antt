-- ===== src/Mcp/Listing/Withheld.antt =====
-- What the listing of the connections says of a password.
use d9s.Base.{◌≡◌, refl, ap, Bool, false, ◌||◌, Bytes, List, [], ◌∷◌, ◌++◌, codes, equal}
use d9s.Config.Connection.{Connection, is_op_ref, is_env_ref}
use d9s.Mcp.Listing.{
  password_ref, connection_row, connection_rows, connection_columns, write_gate_note,
  list_connections,
}
use d9s.Mcp.Table.{grid}

-- Two connections that differ in their passwords alone.
abbrev pub holding : Bytes → Connection → Connection
holding password conn = record conn { password = password }

password_ref_literal :
    (p q : Bytes)
    → equal p [] ≡ false
    → equal q [] ≡ false
    → (is_op_ref p || is_env_ref p) ≡ false
    → (is_op_ref q || is_env_ref q) ≡ false
    → password_ref p ≡ password_ref q
unfolding password_ref
password_ref_literal p q h k l m = rw (h, k, l, m) refl

abbrev listing_of : Bool → List (List Bytes) → Bytes
listing_of allow_write rows =
    grid connection_columns rows ++ codes "\n" ++ write_gate_note allow_write

connection_rows_literal :
    (allow_write : Bool) (before after : List Connection) (conn : Connection) (p q : Bytes)
    → password_ref p ≡ password_ref q
    → connection_rows allow_write (before ++ holding p conn ∷ after)
      ≡ connection_rows allow_write (before ++ holding q conn ∷ after)
unfolding connection_rows connection_row
connection_rows_literal allow_write [] after conn p q h = rw h refl
connection_rows_literal allow_write (c ∷ before) after conn p q h =
    ap (λ rows. connection_row allow_write c ∷ rows)
      (connection_rows_literal allow_write before after conn p q h)

-- The listing of the connections shows nothing of a password that is written into the configuration: it is
-- the same for any two passwords of a connection that are neither empty nor references.
pub list_connections-password_ref :
    (allow_write : Bool) (before after : List Connection) (conn : Connection) (p q : Bytes)
    → equal p [] ≡ false
    → equal q [] ≡ false
    → (is_op_ref p || is_env_ref p) ≡ false
    → (is_op_ref q || is_env_ref q) ≡ false
    → list_connections allow_write (before ++ holding p conn ∷ after)
      ≡ list_connections allow_write (before ++ holding q conn ∷ after)
unfolding list_connections
list_connections-password_ref allow_write [] after conn p q h k l m =
    ap (λ rows. listing_of allow_write rows)
      (connection_rows_literal allow_write [] after conn p q (password_ref_literal p q h k l m))
list_connections-password_ref allow_write (c ∷ before) after conn p q h k l m =
    ap (λ rows. listing_of allow_write rows)
      (connection_rows_literal allow_write (c ∷ before) after conn p q
        (password_ref_literal p q h k l m))
