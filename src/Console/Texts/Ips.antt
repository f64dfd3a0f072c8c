-- ===== src/Console/Texts/Ips.antt =====
-- src/modules/mgr/mgr_ip.cpp: the literal texts of its pages and queries.
use evcp.Base.{[], ◌∷◌, Bytes}
use evcp.Base.Text.{texts}

-- The query of `mgrIpList`
unfoldable pub ips_query : Bytes
ips_query = texts ("SELECT i.ip_addr, i.ip_added, i.ip_avail " ∷ "FROM ip_pool i " ∷ [])

-- The list of addresses, in front of its rows
unfoldable pub ips_head : Bytes
ips_head = texts (
    "<doc mtime=\"45gvergv4rg\" binary=\"/mgr/\" theme=\"/sirius/\" "
    ∷ "fixpng=\"\" localdir=\"local/\" img=\"\" css=\"main.css\" logolink=\"/mgr/\" logo=\"logo-vdsmgr.png\" >"
    ∷ "<p_num>1</p_num>" ∷ "<p_cnt>30</p_cnt>" ∷ "<p_sort>''</p_sort>" ∷ "<p_order>''</p_order>"
    ∷ "<plid></plid>" ∷ "<func>iplist</func>" ∷ "<slave>0</slave>" ∷ "<tfilter></tfilter>"
    ∷ "<metadata type=\"list\" selficon=\"equipment\" key=\"ipaddr\">"
    ∷ "<coldata type=\"list\" key=\"sss\">"
    ∷ "<col type=\"data\" name=\"ipaddr\" wrap=\"no\" align=\"left\" />"
    ∷ "<col type=\"data\" name=\"hostname\" wrap=\"no\" align=\"left\" />"
    ∷ "<col type=\"data\" name=\"avail\" wrap=\"no\" align=\"left\" />"
    ∷ "<col type=\"data\" name=\"created\" wrap=\"no\" align=\"left\" />"
    ∷ "<col type=\"data\" name=\"assigned\" wrap=\"no\" align=\"left\" />" ∷ "</coldata>"
    ∷ "<toolbar type=\"list\" key=\"sss\">"
    ∷ "<toolbtn type=\"func\" name=\"ipcreate\" img=\"t-new\" default=\"yes\" func=\"tb_op_new('ipadd')\" />"
    ∷ "<toolbtn type=\"func\" name=\"ipedit\" img=\"t-edit\" default=\"no\" func=\"tb_op_new('ipedit')\" />"
    ∷ "<toolbtn type=\"editlist\" name=\"ipdelete\" img=\"t-delete\" func=\"ipdel\" />"
    ∷ "</toolbar>" ∷ "</metadata>" ∷ [])

-- The list of addresses, behind its rows
unfoldable pub ips_tail : Bytes
ips_tail = texts (
    "<messages>" ∷ "<msg name=\"title\">Список IP-адресов</msg>"
    ∷ "<msg name=\"ipaddr\">IP-адрес</msg>" ∷ "<msg name=\"hostname\">Хост</msg>"
    ∷ "<msg name=\"avail\">Использовать?</msg>" ∷ "<msg name=\"created\">Создан</msg>"
    ∷ "<msg name=\"assigned\">Присвоен</msg>"
    ∷ "<msg name=\"hint_ipcreate\">Добавить IP-адрес в список</msg>"
    ∷ "<msg name=\"hint_ipedit\">Изменить свойства IP-адреса</msg>"
    ∷ "<msg name=\"hint_ipdelete\">Удалить IP-адрес из список используемых</msg>"
    ∷ "<msg name=\"msg_nosel\">Ничего не выделено</msg>" ∷ "</messages>" ∷ "</doc>" ∷ [])

-- The form of new addresses
unfoldable pub ip_form : Bytes
ip_form = texts (
    "<doc mtime=\"45gvergv4rg\" binary=\"/mgr/\" theme=\"/sirius/\" "
    ∷ "fixpng=\"no\" localdir=\"local/\" img=\"\" css=\"main.css\">" ∷ "<plid></plid>"
    ∷ "<func>ipadd</func>" ∷ "<slave>0</slave>" ∷ "<metadata type=\"form\" name=\"ipadd\">"
    ∷ "<form height=\"200\" maxwidth=\"300\" focus=\"single\" top=\"yes\" extokmsg=\"dddd\">"
    ∷ "<page name=\"single\">"
    ∷ "<field name=\"singleip\"><input type=\"text\" name=\"singleip\" /></field>"
    ∷ "<field name=\"avail\"><input type=\"checkbox\" name=\"avail\" /></field>" ∷ "</page>"
    ∷ "<page name=\"milti\">"
    ∷ "<field name=\"multistart\"><input type=\"text\" name=\"multistart\" /></field>"
    ∷ "<field name=\"multiend\"><input type=\"text\" name=\"multiend\" /></field>" ∷ "</page>"
    ∷ "</form>" ∷ "</metadata>" ∷ "<messages>" ∷ "<msg name=\"title\">Добавление IP-адресов</msg>"
    ∷ "<msg name=\"single\">Один адрес</msg>" ∷ "<msg name=\"milti\">Несколько адресов</msg>"
    ∷ "<msg name=\"pagerok\">Сист. номер</msg>" ∷ "<msg name=\"pagerline\">Процессов</msg>"
    ∷ "<msg name=\"pagershow\">IP-адрес</msg>" ∷ "<msg name=\"msg_extokmsg\">Создать</msg>"
    ∷ "<msg name=\"msg_back\">Отмена</msg>" ∷ "<msg name=\"singleip\">Новый IP-адрес</msg>"
    ∷ "<msg name=\"avail\">Доступен к использованию</msg>"
    ∷ "<msg name=\"multistart\">Начало диапазона IP-адрес</msg>"
    ∷ "<msg name=\"multiend\">Окончание диапазона IP-адрес</msg>" ∷ "</messages>"
    ∷ "<pwgenlen>'8'</pwgenlen>" ∷ "<pwgencharacters></pwgencharacters>" ∷ "</doc>" ∷ [])
