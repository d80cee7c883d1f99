-- ===== src/Http/Infra.antt =====
-- internal/httpapi/infra.go: the routes outside the contract.
use Prim.Native.String.{◌++◌}
use gowallet.Prelude.{String, [], ◌∷◌}
use gowallet.Http.Response.{Response, raw}

-- `serveSpec`
unfoldable pub serve_spec : String → Response
serve_spec spec_yaml = record {
  status = 200;
  headers = ("Content-Type", "application/yaml") ∷ [];
  body = raw spec_yaml;
}

abbrev swagger_html : String
swagger_html =
    "<!DOCTYPE html>\n" ++ "<html lang=\"en\">\n" ++ "<head>\n" ++ "  <meta charset=\"UTF-8\">\n"
    ++ "  <title>gowallet API — Swagger UI</title>\n"
    ++ "  <link rel=\"stylesheet\" href=\"https://unpkg.com/swagger-ui-dist@5/swagger-ui.css\">\n"
    ++ "</head>\n" ++ "<body>\n" ++ "  <div id=\"swagger-ui\"></div>\n"
    ++ "  <script src=\"https://unpkg.com/swagger-ui-dist@5/swagger-ui-bundle.js\"></script>\n"
    ++ "  <script>\n"
    ++ "    window.ui = SwaggerUIBundle({ url: '/openapi.yaml', dom_id: '#swagger-ui' });\n"
    ++ "  </script>\n" ++ "</body>\n" ++ "</html>"

-- `serveSwagger`
unfoldable pub serve_swagger : Response
serve_swagger = record {
  status = 200;
  headers = ("Content-Type", "text/html; charset=utf-8") ∷ [];
  body = raw swagger_html;
}
