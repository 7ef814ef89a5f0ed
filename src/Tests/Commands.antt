-- ===== src/Tests/Commands.antt =====
-- Commands of the admin interface, at concrete inputs.
use ad_block.Base.{some}
use ad_block.Dns.Commands.{parse_upstream_command}
use ad_block.Dns.Commands.Checked.{Checked, parse_upstream_command-Checked}
use ad_block.Json.{Value, string, object, field_then, end_of_object}
use ad_block.Text.{codes}

abbrev request_body : Value
request_body = object (
    field_then (codes "name") (string (codes "Quad 9"))
      (field_then (codes "host") (string (codes "tls://9.9.9.9")) end_of_object))

parse_upstream_command-Checked_example :
    Checked (parse_upstream_command (λ t. t) (some request_body))
parse_upstream_command-Checked_example = parse_upstream_command-Checked (λ t. t) (some request_body)
