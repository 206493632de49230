-- ===== src/Sync/Template/Script.antt =====
-- The texts of pkg/builder/sync_pod.go that the pods of a sync run: syncPodEnrtypoint and the command
-- of a worker, line by line.
use juicefs_operator.Base.{Bool, true, false, [], ◌∷◌, ◌++◌}
use juicefs_operator.Base.Text.{Text, codes, join}

abbrev show_bool : Bool → Text
show_bool true = codes "true"
show_bool false = codes "false"

-- `fmt.Sprintf(syncPodEnrtypoint, distributed, auth, command)`
unfoldable pub sync_pod_entrypoint : (distributed : Bool) → (auth command : Text) → Text
sync_pod_entrypoint distributed auth command = join b'\n' (
    codes "#!/bin/sh"
    ∷ codes "set -e"
    ∷ []
    ∷ (codes "IS_DISTRIBUTED=" ++ show_bool distributed)
    ∷ codes "WORKER_IPS=$WORKER_IPS"
    ∷ codes "READ_ONLY_SSH_KEY_PATH=/root/ssh/"
    ∷ []
    ∷ codes "if [ \"$IS_DISTRIBUTED\" = \"true\" ]; then"
    ∷ codes "\t# disable strict host key checking"
    ∷ codes "\tsed -i 's/^#\\s*\\(StrictHostKeyChecking\\s*\\).*/\\1no/' /etc/ssh/ssh_config"
    ∷ codes "\tsed -i 's/^#\\?\\s*\\(UsePAM\\s*\\).*/\\1no/' /etc/ssh/sshd_config"
    ∷ codes "\techo \"    UserKnownHostsFile /dev/null\" >> /etc/ssh/ssh_config"
    ∷ []
    ∷ codes "\tssh-keygen -A"
    ∷ codes "\t/usr/sbin/sshd"
    ∷ []
    ∷ codes "\tif [ ! -d \"$READ_ONLY_SSH_KEY_PATH\" ]; then"
    ∷ codes "\t\techo \"No ssh key found\""
    ∷ codes "\t\texit 1"
    ∷ codes "\tfi"
    ∷ []
    ∷ codes "\tmkdir -p /root/.ssh"
    ∷ []
    ∷ codes "\tfor file in $READ_ONLY_SSH_KEY_PATH/*; do"
    ∷ codes "\t\tif [ -f \"$file\" ]; then"
    ∷ codes "\t\t\tcat $file > /root/.ssh/$(basename $file)"
    ∷ codes "\t\tfi"
    ∷ codes "\tdone"
    ∷ []
    ∷ codes "\tchmod 700 /root/.ssh"
    ∷ []
    ∷ codes "\tif [ -e /root/.ssh/id_rsa ]; then"
    ∷ codes "\t\tchmod 600  /root/.ssh/id_rsa "
    ∷ codes "\tfi"
    ∷ []
    ∷ codes "\tif [ -e /root/.ssh/id_rsa.pub ]; then"
    ∷ codes "\t\tchmod 644  /root/.ssh/id_rsa.pub"
    ∷ codes "\tfi"
    ∷ codes "fi"
    ∷ []
    ∷ codes "# auth if needed"
    ∷ auth
    ∷ []
    ∷ codes "if [ \"$IS_DISTRIBUTED\" = \"true\" ]; then"
    ∷ codes "\t# copy auth files to workers"
    ∷ codes "\tif ls /root/.juicefs/*.conf >/dev/null 2>&1; then"
    ∷ codes "\t\tfor ip in $(echo $WORKER_IPS | sed \"s/,/ /g\"); do"
    ∷ codes
        "\t\t\tscp -r -o ConnectTimeout=10 -o StrictHostKeyChecking=no /root/.juicefs/*.conf root@$ip:/root/.juicefs"
    ∷ codes "\t\tdone"
    ∷ codes "\tfi"
    ∷ codes "fi"
    ∷ []
    ∷ command
    ∷ []
    ∷ codes "echo \"Sync finished\""
    ∷ []
    ∷ [])

unfoldable pub worker_sync_cmd : Text
worker_sync_cmd = join b'\n' (
    []
    ∷ codes "echo \"waiting for sync worker start\""
    ∷ codes "while true; do"
    ∷ codes "    juicefs_pid=$(pgrep -f \"^/tmp/juicefs sync\" || true)"
    ∷ codes "    if [ -n \"$juicefs_pid\" ]; then"
    ∷ codes "        echo \"sync worker is running with PID: $juicefs_pid\""
    ∷ codes "        while kill -0 \"$juicefs_pid\" 2>/dev/null; do"
    ∷ codes "            sleep 1"
    ∷ codes "        done"
    ∷ codes "        echo \"sync worker is finished, exit\""
    ∷ codes "        exit 0"
    ∷ codes "    fi"
    ∷ codes "done"
    ∷ []
    ∷ [])
