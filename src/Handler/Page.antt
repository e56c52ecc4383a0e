-- ===== src/Handler/Page.antt =====
-- The template of the root page of internal/handler/handlers.go, line by line.
use Prim.Native.String
use study_project_metrics_an.Base.{String, List, [], ◌∷◌}

-- The lines, with a line feed after each but the last.
unfoldable pub joined : List String → String
joined [] = ""
joined (line ∷ []) = line
joined (line ∷ next ∷ rest) = String.◌++◌ line (String.◌++◌ "\n" (joined (next ∷ rest)))

abbrev lines : List String
lines =
    "<!DOCTYPE html>" ∷ "<html>" ∷ "<head>" ∷ "    <title>Metrics Server</title>" ∷ "    <style>"
    ∷ "        /* ... (ваши стили остаются без изменений) ... */" ∷ "    </style>" ∷ "</head>"
    ∷ "<body>" ∷ "    <div class=\"container\">" ∷ "        <h1>Metrics Server Dashboard</h1>"
    ∷ "        " ∷ "        <h2>Gauges <span class=\"count\">({{len .Gauges}})</span></h2>"
    ∷ "        <table>" ∷ "            <tr><th>Name</th><th>Value</th></tr>"
    ∷ "            {{range $name, $value := .Gauges}}"
    ∷ "            <tr><td><strong>{{$name}}</strong></td><td>{{printf \"%.6f\" $value}}</td></tr>"
    ∷ "            {{else}}"
    ∷ "            <tr><td colspan=\"2\" style=\"text-align: center; color: #666;\">No gauges available</td></tr>"
    ∷ "            {{end}}" ∷ "        </table>" ∷ "        "
    ∷ "        <h2>Counters <span class=\"count\">({{len .Counters}})</span></h2>"
    ∷ "        <table>" ∷ "            <tr><th>Name</th><th>Value</th></tr>"
    ∷ "            {{range $name, $value := .Counters}}"
    ∷ "            <tr><td><strong>{{$name}}</strong></td><td>{{$value}}</td></tr>"
    ∷ "            {{else}}"
    ∷ "            <tr><td colspan=\"2\" style=\"text-align: center; color: #666;\">No counters available</td></tr>"
    ∷ "            {{end}}" ∷ "        </table>" ∷ "        "
    ∷ "        <div style=\"margin-top: 30px; padding: 15px; background-color: #e7f3ff; border-left: 4px solid #2196F3;\">"
    ∷ "            <h3>API Endpoints:</h3>" ∷ "            <ul>"
    ∷ "                <li><code>POST /update/{type}/{name}/{value}</code> - Update metric</li>"
    ∷ "                <li><code>GET /value/{type}/{name}</code> - Get metric value</li>"
    ∷ "                <li><code>GET /</code> - This dashboard</li>"
    ∷ "                <li><code>GET /ping</code> - Check database connection</li>"
    ∷ "            </ul>" ∷ "        </div>" ∷ "    </div>" ∷ "</body>" ∷ "</html>" ∷ []

-- tmpl of rootHandler
unfoldable pub tmpl : String
tmpl = joined lines
